-- ===== src/Control/ToyTokens.antt =====
-- Stand-ins for the witnesses: a token is its key and its claims, each text behind its length; a
-- password's hash is the password.
use Prim.Native.Nat.{compare}
use Prim.Native.Nat.Ordering.{lt, eq, gt}
use Prim.Native.Nat.{Ordering}
use Prim.Native.Char.{Char, char, code, nul}
use Prim.Native.String.{String}
use res.Base.{
  ℕ, ◌<◌, ◌≤◌, ◌≡◌, refl, Bool, true, ◌&&◌, Option, none, some, List, [], ◌∷◌, ◌++◌, if◌then◌else◌,
  Bytes, length, take, drop, take_of_append, drop_of_append, ltb, ◌==◌, ==_refl, bytes_eq,
  string_eq, arith,
}
use res.Control.Auth.Email.{codes}
use res.Control.Tokens.{Claims, Method, hs256, Jwt}
use res.Control.Auth.{Bcrypt}

-- IsScalar, by its three comparisons.
abbrev BothBelow : Ordering → Ordering → Type 0
BothBelow lt lt = Unit
BothBelow lt eq = ⊥
BothBelow lt gt = ⊥
BothBelow eq _ = ⊥
BothBelow gt _ = ⊥

abbrev Scalar : Ordering → Ordering → Ordering → Type 0
Scalar lt _ _ = Unit
Scalar eq o p = BothBelow o p
Scalar gt o p = BothBelow o p

scalar? : (o p q : Ordering) → Option (Scalar o p q)
scalar? lt p q = some tt
scalar? eq lt lt = some tt
scalar? eq lt eq = none
scalar? eq lt gt = none
scalar? eq eq q = none
scalar? eq gt q = none
scalar? gt lt lt = some tt
scalar? gt lt eq = none
scalar? gt lt gt = none
scalar? gt eq q = none
scalar? gt gt q = none

scalar?-some : (o p q : Ordering) (h : Scalar o p q) → scalar? o p q ≡ some h
unfolding scalar?
scalar?-some lt p q h = refl
scalar?-some eq lt lt h = refl
scalar?-some eq lt eq h = absurd h
scalar?-some eq lt gt h = absurd h
scalar?-some eq eq q h = absurd h
scalar?-some eq gt q h = absurd h
scalar?-some gt lt lt h = refl
scalar?-some gt lt eq h = absurd h
scalar?-some gt lt gt h = absurd h
scalar?-some gt eq q h = absurd h
scalar?-some gt gt q h = absurd h

to_char : ℕ → Char
to_char n = elim (scalar? (compare n 55296) (compare 57343 n) (compare n 1114112)) [
  | none ↦ nul
  | some h ↦ char n h
]

to_char-code : (c : Char) → to_char (code c) ≡ c
unfolding to_char
to_char-code (char n h) =
    rw (scalar?-some (compare n 55296) (compare 57343 n) (compare n 1114112) h, to_char) refl

pub text_of : List ℕ → String
text_of [] = String.[]
text_of (n ∷ ns) = String.◌∷◌ (to_char n) (text_of ns)

text_of-codes : (s : String) → text_of (codes s) ≡ s
unfolding text_of
text_of-codes String.[] = refl
text_of-codes (String.◌∷◌ c s) = λ i. String.◌∷◌ (to_char-code c i) (text_of-codes s i)

-- A text behind its length, and what stands after it.
field : Bytes → Bytes
field bs = length bs ∷ bs

split_field : Bytes → Bytes × Bytes
split_field [] = ([], [])
split_field (n ∷ bs) = (take n bs, drop n bs)

split_field-field : (bs rest : Bytes) → split_field (field bs ++ rest) ≡ (bs, rest)
unfolding field split_field
split_field-field bs rest =
    λ i. (take_of_append (length bs) bs rest refl i, drop_of_append (length bs) bs rest refl i)

pub spell : Bytes → Claims → Bytes
spell key c =
    field key
    ++ (field (codes c.account_id)
        ++ (field (codes c.node_id) ++ (field (codes c.issuer) ++ c.expires_at ∷ c.issued_at ∷ [])))

times : Bytes → ℕ × ℕ
times [] = (0, 0)
times (a ∷ []) = (a, 0)
times (a ∷ b ∷ _) = (a, b)

read : Bytes → Bytes × Claims
read token =
    let k = split_field token in
    let a = split_field k.1 in
    let n = split_field a.1 in
    let i = split_field n.1 in
    (
      k.0,
      record {
        account_id = text_of a.0;
        node_id = text_of n.0;
        expires_at = (times i.1).0;
        issued_at = (times i.1).1;
        issuer = text_of i.0;
      },
    )

read-spell : (key : Bytes) (c : Claims) → read (spell key c) ≡ (key, c)
unfolding read spell times
read-spell key c =
    let r3 = c.expires_at ∷ c.issued_at ∷ [] in
    let r2 = field (codes c.issuer) ++ r3 in
    let r1 = field (codes c.node_id) ++ r2 in
    let r0 = field (codes c.account_id) ++ r1 in
    ground (
      arith,
      split_field-field key r0,
      split_field-field (codes c.account_id) r1,
      split_field-field (codes c.node_id) r2,
      split_field-field (codes c.issuer) r3,
      text_of-codes c.account_id,
      text_of-codes c.node_id,
      text_of-codes c.issuer,
    )

abbrev signed : Bytes → Claims → Option Bytes
signed key c = some (spell key c)

pub parse : (Method → Option Bytes) → ℕ → Bytes → Option Claims
parse key_of now token = elim (key_of hs256) [
  | none ↦ none
  | some key ↦
      let r = read token in if (r.0 == key) && ltb now r.1.expires_at then some r.1 else none
]

pub parse-spell :
    (key_of : Method → Option Bytes) (key : Bytes) (c : Claims) (now : ℕ) (token : Bytes)
    → key_of hs256 ≡ some key
    → signed key c ≡ some token
    → now < c.expires_at
    → parse key_of now token ≡ some c
unfolding parse
parse-spell key_of key c now token h s l = ground (arith, h, s, read-spell key c, ==_refl key)

pub parse_late :
    (key_of : Method → Option Bytes) (key : Bytes) (c : Claims) (now : ℕ) (token : Bytes)
    → signed key c ≡ some token
    → c.expires_at ≤ now
    → parse key_of now token ≡ none
unfolding parse
parse_late key_of key c now token s l = ground (arith, s, read-spell key c)

abbrev pub jwt : Jwt
jwt = record {
  sign = signed;
  sign-some = λ key c. (spell key c, refl);
  parse = parse;
  parse-sign = parse-spell;
  parse_expired = parse_late;
}

abbrev plain_hash : Bytes → Bytes → Option String
plain_hash salt password = some (text_of password)

pub plain_compare : String → Bytes → Bool
plain_compare hash password = hash == text_of password

pub plain_compare-hash :
    (salt password : Bytes) (hash : String)
    → plain_hash salt password ≡ some hash
    → plain_compare hash password ≡ true
unfolding plain_compare
plain_compare-hash salt password hash h = ground (arith, h, ==_refl hash)

abbrev pub bcrypt : Bcrypt
bcrypt = record {
  generate = plain_hash;
  compare = plain_compare;
  compare-generate = plain_compare-hash;
}
