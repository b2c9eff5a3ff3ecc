-- ===== src/Control/NodeService/Unique.antt =====
-- No two nodes share an identifier, a key or a mesh address: the statements of
-- control-plane/db/node_repo.go and the requests of control-plane/service/node_service.go.
use Prim.Native.String.{String}
use res.Base.{
  ℕ, ◌≡◌, refl, sym, ◌∙◌, subst, inl, inr, Bool, true, false, not, ◌&&◌, Option, none, some, List,
  [], ◌∷◌, ok, ◌==◌, ==_iff, string_eq, nat_eq, arith, filter, All, All-get_elem?, ◌^◌, ◌-◌, ◌%◌,
  length, Bool-cases,
}
use res.Control.Nodes.{
  Node, Db, any, has_id, has_key, has_ip, update_where, find_available, is_free, candidates,
  is_value,
}
use res.Control.Nodes.Filters.{
  Nodup, same_id, Nodup-append, Nodup-filter, Nodup-update_where, any_ext,
}
use res.Control.NodeService.Shape.{register_fresh-eq-ok, re_register-eq-ok, rewritten, is_kept}
use res.Control.NodeService.{
  Env, Statement, Request, Response, new_node, register_fresh, re_register,
}

abbrev pub same_key : Node → Node → Bool
same_key x y = y.public_key == x.public_key

abbrev pub same_ip : Node → Node → Bool
same_ip x y = elim x.internal_ip [ none ↦ false | some ip ↦ has_ip ip y ]

-- NULL addresses are no address.
pub record IsValid (db : Db) : Type 0 where
  pub ids : Nodup same_id db.nodes
  pub keys : Nodup same_key db.nodes
  pub ips : Nodup same_ip db.nodes

free_of-found :
    (bits pick : ℕ) (db : Db) (ip : ℕ)
    → find_available bits pick db ≡ some ip
    → is_free ip db ≡ true
unfolding find_available
free_of-found bits pick db ip h =
    let free = filter (λ x. is_free x db) (candidates (2 ^ bits - 2)) in
    All-get_elem? (λ x. is_free x db ≡ true) free (pick % length free) ip
      (All-filter_self (λ x. is_free x db) (candidates (2 ^ bits - 2))) h
  where
    All-filter_self : (p : ℕ → Bool) (xs : List ℕ) → All (λ x. p x ≡ true) (filter p xs)
    All-filter_self p [] = tt
    All-filter_self p (x ∷ xs) = ground (arith, All-filter_self p xs)

abbrev shares : Option ℕ → Option ℕ → Bool
shares none b = false
shares (some ip) b = is_value ip b

shares_comm : (a b : Option ℕ) → shares a b ≡ shares b a
shares_comm none none = refl
shares_comm none (some y) = refl
shares_comm (some x) none = refl
shares_comm (some x) (some y) = ground arith

same_ip-shares : (x y : Node) → same_ip x y ≡ shares x.internal_ip y.internal_ip
same_ip-shares x y = go x.internal_ip
  where
    go : (a : Option ℕ) → (elim a [ none ↦ false | some ip ↦ has_ip ip y ]) ≡ shares a y.internal_ip
    go none = refl
    go (some ip) = refl

same_ip_comm : (x y : Node) → same_ip x y ≡ same_ip y x
same_ip_comm x y =
    same_ip-shares x y ∙ shares_comm x.internal_ip y.internal_ip ∙ sym (same_ip-shares y x)

pub added-IsValid :
    (env : Env) (account : String) (req : Request) (db : Db) (resp : Response)
    → IsValid db
    → (register_fresh env account req db).0 ≡ ok resp
    → IsValid (register_fresh env account req db).1
unfolding new_node is_free
added-IsValid env account req db resp v h =
    let shape = register_fresh-eq-ok env account req db resp h in
    let node = new_node env account req shape.ip in
    let free = free_of-found env.bits env.pick db shape.ip shape.found in
    record {
      ids = rw shape.rows (
          Nodup-append same_id db.nodes node v.ids (
            any_ext (λ x. same_id x node) (has_id env.fresh_id) db.nodes
              (λ x. ground (arith, ==_iff x.id env.fresh_id, ==_iff env.fresh_id x.id))
            ∙ shape.new_id));
      keys = rw shape.rows (
          Nodup-append same_key db.nodes node v.keys (
            any_ext (λ x. same_key x node) (has_key req.public_key) db.nodes
              (λ x.
                ground
                  (arith, ==_iff x.public_key req.public_key, ==_iff req.public_key x.public_key))
            ∙ shape.new_key));
      ips = rw shape.rows (
          Nodup-append same_ip db.nodes node v.ips (
            any_ext (λ x. same_ip x node) (has_ip shape.ip) db.nodes (λ x. same_ip_comm x node)
            ∙ ground (arith, free)));
    }

-- A row that takes a key that only rows of its identifier may have.
Nodup-rekey :
    (i k : String) (f : Node → Node) (xs : List Node)
    → ((x : Node) → (f x).id ≡ x.id)
    → ((x : Node) → (f x).public_key ≡ k)
    → Nodup same_id xs
    → Nodup same_key xs
    → any (λ n. has_key k n && not (has_id i n)) xs ≡ false
    → Nodup same_key (update_where (has_id i) f xs)
unfolding update_where
Nodup-rekey i k f [] fi fk u v h = tt
Nodup-rekey i k f (x ∷ xs) fi fk u v h = elim (Bool-cases (x.id == i)) [
  | inl e ↦
      let q = (==_iff x.id i).0 e in
      let rest = update_absent i f xs (subst (λ j. any (has_id j) xs ≡ false) q u.0) in
      rw (e, rest)
        (
          any_taken i k (f x) xs (fk x) (subst (λ j. any (has_id j) xs ≡ false) q u.0)
              (ground (arith, h)),
          v.1,
        )
  | inr e ↦ rw e (
    any_rekey i k x f xs fk v.0
        (ground (arith, h, e, ==_iff x.public_key k, ==_iff k x.public_key)),
    Nodup-rekey i k f xs fi fk u.1 v.1 (ground (arith, h)),
  )
]
  where
    update_absent :
        (i : String) (f : Node → Node) (xs : List Node)
        → any (has_id i) xs ≡ false
        → update_where (has_id i) f xs ≡ xs
    update_absent i f [] h = refl
    update_absent i f (y ∷ ys) h = ground (arith, h, update_absent i f ys)

    any_taken :
        (i k : String) (x : Node) (xs : List Node)
        → x.public_key ≡ k
        → any (has_id i) xs ≡ false
        → any (λ n. has_key k n && not (has_id i n)) xs ≡ false
        → any (same_key x) xs ≡ false
    any_taken i k x [] q a b = refl
    any_taken i k x (y ∷ ys) q a b = ground (arith, q, a, b, any_taken i k x ys q)

    any_rekey :
        (i k : String) (x : Node) (f : Node → Node) (xs : List Node)
        → ((x : Node) → (f x).public_key ≡ k)
        → any (same_key x) xs ≡ false
        → (k == x.public_key) ≡ false
        → any (same_key x) (update_where (has_id i) f xs) ≡ false
    any_rekey i k x f [] fk a b = refl
    any_rekey i k x f (y ∷ ys) fk a b = ground (arith, fk y, a, b, any_rekey i k x f ys fk)

pub same-IsValid : (db db' : Db) → IsValid db → db'.nodes ≡ db.nodes → IsValid db'
same-IsValid db db' v e = record { ids = rw e v.ids; keys = rw e v.keys; ips = rw e v.ips }

pub filter-IsValid :
    (p : Node → Bool) (db db' : Db) → IsValid db → db'.nodes ≡ filter p db.nodes → IsValid db'
filter-IsValid p db db' v e = record {
  ids = rw e (Nodup-filter same_id p db.nodes v.ids);
  keys = rw e (Nodup-filter same_key p db.nodes v.keys);
  ips = rw e (Nodup-filter same_ip p db.nodes v.ips);
}

-- An update of columns that are not unique.
pub update-IsValid :
    (p : Node → Bool) (f : Node → Node) (db db' : Db)
    → ((x : Node) → (f x).id ≡ x.id)
    → ((x : Node) → (f x).public_key ≡ x.public_key)
    → ((x : Node) → (f x).internal_ip ≡ x.internal_ip)
    → IsValid db
    → db'.nodes ≡ update_where p f db.nodes
    → IsValid db'
update-IsValid p f db db' fi fk fa v e = record {
  ids = rw e (
      Nodup-update_where same_id p f db.nodes (λ x y. rw (fi y) refl) (λ x y. rw (fi x) refl)
        v.ids);
  keys = rw e (
      Nodup-update_where same_key p f db.nodes (λ x y. rw (fk y) refl) (λ x y. rw (fk x) refl)
        v.keys);
  ips = rw e (
      Nodup-update_where same_ip p f db.nodes (λ x y. rw (fa y) refl) (λ x y. rw (fa x) refl)
        v.ips);
}

pub rewritten-IsValid :
    (env : Env) (account : String) (req : Request) (existing : Node) (db : Db) (resp : Response)
    → IsValid db
    → (re_register env account req existing db).0 ≡ ok resp
    → IsValid (re_register env account req existing db).1
rewritten-IsValid env account req existing db resp v h =
    let shape = re_register-eq-ok env account req existing db resp h in
    let f = rewritten env account req in
    let db1 : Db = record db { nodes = update_where (has_id existing.id) f db.nodes } in
    let v1 : IsValid db1 = record {
      ids =
          Nodup-update_where same_id (has_id existing.id) f db.nodes (λ x y. refl) (λ x y. refl)
            v.ids;
      keys =
          Nodup-rekey existing.id req.public_key f db.nodes (λ x. refl) (λ x. refl) v.ids v.keys
            shape.new_key;
      ips =
          Nodup-update_where same_ip (has_id existing.id) f db.nodes (λ x y. refl) (λ x y. refl)
            v.ips;
    } in
    elim (Bool-cases (env.up Statement.delete_others)) [
      | inl up ↦
          filter-IsValid (is_kept req existing) db1 (re_register env account req existing db).1 v1
            (shape.rows ∙ ground (arith, up))
      | inr down ↦
          same-IsValid db1 (re_register env account req existing db).1 v1
            (shape.rows ∙ ground (arith, down))
    ]
