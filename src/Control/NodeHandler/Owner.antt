-- ===== src/Control/NodeHandler/Owner.antt =====
-- The handlers of control-plane/handler/node.go do not touch the nodes of other accounts.
use Prim.Native.String.{String}
use res.Base.{
  ◌≡◌, refl, sym, subst, inl, inr, true, false, not, ◌||◌, none, some, List, [], ◌∷◌, if◌then◌else◌,
  ok, ◌==◌, ==_iff, string_eq, arith, filter, All, Bool-cases, Option-cases,
}
use res.Control.Nodes.{Node, Db, any, find, has_id, get_by_id, update_where}
use res.Control.Nodes.Filters.{Nodup, same_id}
use res.Control.NodeService.{Env, Statement}
use res.Control.NodeHandler.{owned}

-- The nodes of other accounts.
abbrev pub others : String → Db → List Node
others account db = filter (λ n. not (n.account_id == account)) db.nodes

-- All rows of the identifier are the account's.
abbrev pub IsOwn : String → String → Db → Type 0
IsOwn account id db = All (λ n. (not (n.id == id) || (n.account_id == account)) ≡ true) db.nodes

Own-absent :
    (account id : String) (ns : List Node)
    → any (has_id id) ns ≡ false
    → All (λ n. (not (n.id == id) || (n.account_id == account)) ≡ true) ns
Own-absent account id [] h = tt
Own-absent account id (n ∷ ns) h = (ground (arith, h), Own-absent account id ns (ground (arith, h)))

pub Own-find :
    (account id : String) (n : Node) (ns : List Node)
    → Nodup same_id ns
    → find (has_id id) ns ≡ some n
    → (n.account_id == account) ≡ true
    → All (λ n. (not (n.id == id) || (n.account_id == account)) ≡ true) ns
unfolding find
Own-find account id n [] u f own = tt
Own-find account id n (m ∷ ms) u f own = elim (Bool-cases (m.id == id)) [
  | inl e ↦
      let q : m ≡ n = ground (arith, f, e) in
      (
        subst (λ x. (not (x.id == id) || (x.account_id == account)) ≡ true) (sym q)
            (ground (arith, own)),
        Own-absent account id ms
            (subst (λ j. any (has_id j) ms ≡ false) ((==_iff m.id id).0 e) u.0),
      )
  | inr e ↦ (ground (arith, e), Own-find account id n ms u.1 (ground (arith, f, e)) own)
]

-- An update of columns other than the owner, and a deletion, keep the rows of others.
pub others-update :
    (account id : String) (f : Node → Node) (ns : List Node)
    → ((n : Node) → (f n).account_id ≡ n.account_id)
    → All (λ n. (not (n.id == id) || (n.account_id == account)) ≡ true) ns
    → filter (λ n. not (n.account_id == account)) (update_where (has_id id) f ns)
      ≡ filter (λ n. not (n.account_id == account)) ns
unfolding update_where
others-update account id f [] fa own = refl
others-update account id f (n ∷ ns) fa own =
    ground (arith, fa n, own.0, others-update account id f ns fa own.1)

pub Own-update :
    (account id : String) (f : Node → Node) (ns : List Node)
    → ((n : Node) → (f n).account_id ≡ n.account_id)
    → ((n : Node) → (f n).id ≡ n.id)
    → All (λ n. (not (n.id == id) || (n.account_id == account)) ≡ true) ns
    → All
        (λ n. (not (n.id == id) || (n.account_id == account)) ≡ true)
        (update_where (has_id id) f ns)
unfolding update_where
Own-update account id f [] fa fi own = tt
Own-update account id f (n ∷ ns) fa fi own =
    (ground (arith, fa n, fi n, own.0), Own-update account id f ns fa fi own.1)

pub others-delete :
    (account id : String) (ns : List Node)
    → All (λ n. (not (n.id == id) || (n.account_id == account)) ≡ true) ns
    → filter (λ n. not (n.account_id == account)) (filter (λ n. not (n.id == id)) ns)
      ≡ filter (λ n. not (n.account_id == account)) ns
others-delete account id [] own = refl
others-delete account id (n ∷ ns) own = ground (arith, own.0, others-delete account id ns own.1)

-- The guard passes only where all rows of the identifier are the caller's.
pub owned-IsOwn :
    (env : Env) (account id : String) (db : Db) (n : Node)
    → Nodup same_id db.nodes
    → owned env account id db ≡ ok n
    → IsOwn account id db
unfolding owned get_by_id
owned-IsOwn env account id db n u h =
    elim (Option-cases (if env.up Statement.find_owner then find (has_id id) db.nodes else none)) [
      | inl q ↦ absurd (ground (arith, h, q))
      | inr (m, q) ↦ Own-find account id m db.nodes u (ground (arith, q)) (ground (arith, h, q))
    ]
