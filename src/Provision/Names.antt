-- ===== src/Provision/Names.antt =====
-- The names that `ValidName` of internal/provision/provision.go accepts.
use rucher.Base.{◌≡◌, refl, true, false, String, arith, string_eq, nat_eq}
use rucher.Base.Text.{contains_char}
use rucher.Provision.{is_name_tail, valid_name}

is_name_tail-plain :
    (s : String)
    → is_name_tail s ≡ true
    → (contains_char b'/' s ≡ false)
      × (contains_char b'.' s ≡ false)
      × (contains_char b'\n' s ≡ false)
unfolding is_name_tail contains_char
is_name_tail-plain String.[] h = (refl, refl, refl)
is_name_tail-plain (String.◌∷◌ c s) h = ground (arith, is_name_tail-plain s)

-- A valid cadre name has no slash, no point and no line break.
valid_name-plain :
    (name : String)
    → valid_name name ≡ true
    → (contains_char b'/' name ≡ false)
      × (contains_char b'.' name ≡ false)
      × (contains_char b'\n' name ≡ false)
unfolding valid_name contains_char
valid_name-plain String.[] h = (refl, refl, refl)
valid_name-plain (String.◌∷◌ c s) h = ground (arith, is_name_tail-plain s)
