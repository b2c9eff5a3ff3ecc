-- ===== src/Control/Paths/Invariant.antt =====
-- The invariant of the search.
use Prim.Native.String.{String}
use res.Base.{
  ◌≡◌, ◌⊎◌, inl, inr, Bool-cases, true, List, [], ◌∷◌, ◌==◌, ==_iff, string_eq, arith, ◌≢◌, ==_refl,
  ==_ne,
}
use res.Control.Graph.{Floats, Edge, Graph, neighbors}
use res.Control.Graph.Links.{IsIn}
use res.Control.Paths.{Heap, Item, item_less, Search, infinity, is_node, update}
use res.Control.Paths.Order.{AtMost, Below, IsOrdered}

module _ {V : Type 0} where
  pub update_self : (k : String) (v : V) (m : String → V) → update k v m k ≡ v
  unfolding update
  update_self k v m = ground (arith, ==_refl k)

  pub update_ne : (k j : String) (v : V) (m : String → V) → k ≢ j → update k v m j ≡ m j
  unfolding update
  update_ne k j v m h = ground (arith, ==_ne k j h)

-- A property of a value at every key, from the two cases.
pub by_key {ℓ} : (P : Type ℓ) (j k : String) → (j ≡ k → P) → (j ≢ k → P) → P
by_key P j k same other = elim (Bool-cases (j == k)) [
  | inl h ↦ same ((==_iff j k).0 h)
  | inr h ↦ other (λ e. ground (arith, h, (==_iff j k).1 e))
]

module _ (fl : Floats) (o : IsOrdered fl) (heap : Heap (item_less fl)) (g : Graph fl)
    (src : String) where
  abbrev pub IsNode : String → Type 0
  IsNode v = is_node fl v g ≡ true

  -- Every edge leads to a node, at a cost that is not negative.
  pub record IsSound : Type 0 where
    pub target : (v : String) (e : Edge fl) → IsIn e (neighbors fl v g.edges) → IsNode e.to
    pub nonneg :
        (v : String) (e : Edge fl) → IsIn e (neighbors fl v g.edges) → AtMost fl (fl.lit 0) e.cost

  abbrev pub item : String → fl.F → Item fl
  item v c = record { node_id = v; cost = c }

  abbrev pub Parent : List String → Search fl → String → Type 0
  Parent done s v =
      IsIn (s.prev v) done
      × ((e : Edge fl) × IsIn e (neighbors fl (s.prev v) g.edges)
          × (e.to ≡ v)
          × (s.dist v ≡ fl.add (s.dist (s.prev v)) e.cost))

  abbrev pub Chained : List String → Search fl → Type 0
  Chained [] s = Unit
  Chained (v ∷ done) s = IsNode v × ((v ≡ src) ⊎ Parent done s v) × Chained done s

  -- `done` are the nodes whose edges are relaxed, the latest first, save the edges `todo` of `cur`.
  pub record Inv (cur : String) (todo : List (Edge fl)) (done : List String) (s : Search fl)
      : Type 0 where
    pub queued :
        (i : Item fl)
        → IsIn i s.queue
        → IsNode i.node_id × AtMost fl (s.dist i.node_id) i.cost × Below fl i.cost (infinity fl)
    pub frontier :
        (v : String)
        → IsNode v
        → Below fl (s.dist v) (infinity fl)
        → IsIn (item v (s.dist v)) s.queue ⊎ IsIn v done
    pub done_first :
        (v : String) (i : Item fl) → IsIn v done → IsIn i s.queue → AtMost fl (s.dist v) i.cost
    pub relaxed :
        (v : String) (e : Edge fl)
        → IsIn v done
        → IsIn e (neighbors fl v g.edges)
        → ((v ≡ cur) × IsIn e todo) ⊎ AtMost fl (s.dist e.to) (fl.add (s.dist v) e.cost)
    pub nonneg : (v : String) → AtMost fl (fl.lit 0) (s.dist v)
    pub bounded : (v : String) → AtMost fl (s.dist v) (infinity fl)
    pub source : s.dist src ≡ fl.lit 0
    pub parent :
        (v : String) → IsNode v → v ≢ src → Below fl (s.dist v) (infinity fl) → Parent done s v
    pub chained : Chained done s

  -- While the edges of `cur` are relaxed, no node that is done lies behind it.
  pub record Current (cur : String) (done : List String) (s : Search fl) : Type 0 where
    pub is_done : IsIn cur done
    pub latest : (v : String) → IsIn v done → AtMost fl (s.dist v) (s.dist cur)
