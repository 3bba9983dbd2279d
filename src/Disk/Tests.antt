-- ===== src/Disk/Tests.antt =====
-- A write to a sample disk.
use ig.Base.{◌≡◌, ◌⊎◌, some, [], ◌∷◌, take}
use ig.Base.Text.{text}
use ig.Failure.{ok}
use ig.Disk.{Disk, Answers, success, find_file, perform, write_json}
use ig.Disk.Atomic.{Holds, write_json-atomic}

abbrev before : Disk
before = (text "/etc/ig/key.state.json", record { content = 1 ∷ 2 ∷ []; mode = 0o600 }) ∷ []

abbrev full : Answers
full = record success { written = 1; write = some (text "no space left") }

write_json-atomic_example :
    let cut =
      perform
        (take 2 (write_json (text "/etc/ig/key.state.json") 7 (ok (3 ∷ 4 ∷ [])) success).0)
        before in
    (find_file (text "/etc/ig/key.state.json") cut
      ≡ find_file (text "/etc/ig/key.state.json") before)
    ⊎ Holds (text "/etc/ig/key.state.json") (ok (3 ∷ 4 ∷ [])) cut
write_json-atomic_example =
    write_json-atomic (text "/etc/ig/key.state.json") 7 (ok (3 ∷ 4 ∷ [])) success before 2
