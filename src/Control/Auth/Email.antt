-- ===== src/Control/Auth/Email.antt =====
-- `emailRe` of control-plane/handler/auth.go, `^[^@\s]+@[^@\s]+\.[A-Za-z]{2,}$`, on code points.
use Prim.Native.String.{String}
use Prim.Native.Char.{code}
use res.Base.{
  ℕ, Bool, true, false, not, ◌&&◌, ◌||◌, List, [], ◌∷◌, leb, nat_beq, if◌then◌else◌, length,
}

abbrev pub codes : String → List ℕ
codes String.[] = []
codes (String.◌∷◌ c s) = code c ∷ codes s

-- `\s`, `[^@\s]` and `[A-Za-z]`
abbrev pub is_space : ℕ → Bool
is_space c = nat_beq c 9 || nat_beq c 10 || nat_beq c 12 || nat_beq c 13 || nat_beq c 32

abbrev pub is_plain : ℕ → Bool
is_plain c = not (nat_beq c 64) && not (is_space c)

abbrev pub is_letter : ℕ → Bool
is_letter c = (leb 65 c && leb c 90) || (leb 97 c && leb c 122)

abbrev pub all {ℓ} : {A : Type ℓ} → (A → Bool) → List A → Bool
all p [] = true
all p (x ∷ xs) = p x && all p xs

-- `\.[A-Za-z]{2,}$` after the dot.
unfoldable pub is_tld : List ℕ → Bool
is_tld cs = leb 2 (length cs) && all is_letter cs

-- `[^@\s]+\.[A-Za-z]{2,}$`; `seen` says that the first class has matched a character.
unfoldable pub is_domain : (seen : Bool) → List ℕ → Bool
is_domain seen [] = false
is_domain seen (c ∷ cs) = (seen && nat_beq c 46 && is_tld cs) || is_plain c && is_domain true cs

-- `^[^@\s]+@` and the rest.
unfoldable pub is_address : (seen : Bool) → List ℕ → Bool
is_address seen [] = false
is_address seen (c ∷ cs) =
    if nat_beq c 64 then seen && is_domain false cs else is_plain c && is_address true cs

unfoldable pub is_email : String → Bool
is_email s = is_address false (codes s)
