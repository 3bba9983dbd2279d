-- ===== src/Console.antt =====
-- main.rs, `Format`, and what the commands print: the two streams of a process, and the values that
-- are printed as JSON.
use ig.Base.{ℕ, Bool, [], ◌∷◌, ◌++◌}
use ig.Base.Text.{Text}

pub data Format : Type 0 where
  text json : Format

-- `serde_json::Value`; an array and an object are each a spine of their own.
mutual
  pub data Json : Type 0 where
    null : Json
    boolean : Bool → Json
    number : ℕ → Json
    string : Text → Json
    array : Elements → Json
    object : Fields → Json

  pub data Elements : Type 0 where
    stop : Elements
    item : Json → Elements → Elements

  pub data Fields : Type 0 where
    close : Fields
    field : Text → Json → Fields → Fields

pub record Console : Type 0 where
  pub stdout : Text
  pub stderr : Text

unfoldable pub quiet : Console
quiet = record { stdout = []; stderr = [] }

-- `print!`, `println!`, `eprint!` and `eprintln!`.
unfoldable pub print : Text → Console → Console
print t c = record c { stdout = c.stdout ++ t }

unfoldable pub eprint : Text → Console → Console
eprint t c = record c { stderr = c.stderr ++ t }

unfoldable pub println : Text → Console → Console
println line c = record c { stdout = c.stdout ++ (line ++ 10 ∷ []) }

unfoldable pub eprintln : Text → Console → Console
eprintln line c = record c { stderr = c.stderr ++ (line ++ 10 ∷ []) }
