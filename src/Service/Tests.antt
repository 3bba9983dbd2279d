-- ===== src/Service/Tests.antt =====
-- Sample registries.
use ig.Base.{◌≡◌, refl}
use ig.Base.Text.{text}
use ig.Failure.{ok}
use ig.Backend.{BackendSpec, validate}
use ig.Service.{v4, Services, new, register, IsValid}
use ig.Service.Registry.{register-IsValid, new-IsValid, with_entry, register-valid}

abbrev web : BackendSpec
web = BackendSpec.tcp (text "10.0.0.7:80")

abbrev fresh : Services
fresh = new (v4 (text "127.0.0.1"))

web-valid : validate web 80 ≡ ok tt
unfolding validate text
web-valid = refl

abbrev served : Services
served = with_entry fresh 80 web

served-registered : register fresh 80 web ≡ ok served
served-registered = register-valid fresh 80 web web-valid

served-IsValid : IsValid served
served-IsValid =
    register-IsValid fresh served 80 web (new-IsValid (v4 (text "127.0.0.1"))) served-registered
