-- ===== src/Control/Allowlist/Guard.antt =====
-- Who gets past the allowlist of control-plane/handler/relay_allowlist.go.
use Prim.Native.String.{String}
use res.Base.{
  ◌≡◌, ◌⊎◌, inl, inr, refl, sym, subst, ap, ◌∙◌, Bool-cases, true, false, none, some, List, [], ◌∷◌,
  filter, map, ok, Option-cases, ◌==◌, ==_iff, string_eq, arith,
}
use res.Control.Nodes.{any}
use res.Control.NodeHandler.{write_error}
use res.Control.Graph.Links.{IsIn}
use res.Control.Relays.{Env, Declared, RelayServer}
use res.Control.Allowlist.{
  AllowFile, Refusal, Internal, is_entry, load_relay_allowlist, source_of, check_entry,
  check_relay_allowed, admit, register_relay,
}

-- A line of the file that reads as the address, and is neither empty nor a comment.
abbrev pub IsListed : Internal → String → Type 0
IsListed int address =
    (lines : List String) × (int.file ≡ AllowFile.scanned lines true)
    × ((line : String) × IsIn line lines
        × (int.trim_space line ≡ address)
        × (is_entry address ≡ true))

entry_of :
    (trim : String → String) (address : String) (lines : List String)
    → any (λ line. line == address) (filter is_entry (map trim lines)) ≡ true
    → (line : String) × IsIn line lines × (trim line ≡ address) × (is_entry address ≡ true)
entry_of trim address [] h = absurd (ground (arith, h))
entry_of trim address (line ∷ lines) h = elim (Bool-cases (is_entry (trim line))) [
  | inr k ↦
      let (l, i, q, k') = entry_of trim address lines (ground (arith, h, k)) in (l, inr i, q, k')
  | inl k ↦ elim (Bool-cases (trim line == address)) [
    | inl e ↦
        let q = (==_iff (trim line) address).0 e in
        (line, inl refl, q, subst (λ x. is_entry x ≡ true) q k)
    | inr e ↦
        let (l, i, q, k') = entry_of trim address lines (ground (arith, h, k, e)) in
        (l, inr i, q, k')
  ]
]

check_entry-eq-none :
    (int : Internal) (remote address : String) (allow : List String)
    → check_entry int remote address (ok allow) ≡ none
    → (any (λ line. line == address) allow ≡ true) × (source_of int remote ≡ address)
unfolding check_entry
check_entry-eq-none int remote address allow h =
    ground (arith, h, ==_iff (source_of int remote) address)

listed :
    (int : Internal) (remote address : String) (file : AllowFile)
    → int.file ≡ file
    → check_entry int remote address (load_relay_allowlist int.trim_space file) ≡ none
    → IsListed int address × (source_of int remote ≡ address)
unfolding load_relay_allowlist check_entry
listed int remote address AllowFile.missing e h = absurd (cc h)
listed int remote address AllowFile.unreadable e h = absurd (cc h)
listed int remote address (AllowFile.scanned lines true) e h =
    let (a, s) =
      check_entry-eq-none int remote address (filter is_entry (map int.trim_space lines)) h in
    ((lines, e, entry_of int.trim_space address lines a), s)
listed int remote address (AllowFile.scanned lines false) e h = absurd (cc h)

behind :
    (int : Internal) (remote address : String)
    → (int.relay_allowlist_path == "") ≡ false
    → check_relay_allowed int remote address
      ≡ check_entry int remote address (load_relay_allowlist int.trim_space int.file)
unfolding check_relay_allowed
behind int remote address p = rw p refl

refused :
    (env : Env) (int : Internal) (remote : String) (d : Declared) (rows : List RelayServer)
    (e : Refusal)
    → check_relay_allowed int remote d.address ≡ some e
    → register_relay env int remote (some d) rows ≡ (write_error 403 "relay not allowed", rows)
unfolding register_relay admit
refused env int remote d rows e q = ap (λ r. admit env int d r rows) q

-- A registration is refused with status 403 and leaves the table as it is, unless there is no
-- allowlist, or a line of it, not empty and no comment, reads as the declared address and the
-- request comes from that address.
pub register_relay-allowed :
    (env : Env) (int : Internal) (remote : String) (d : Declared) (rows : List RelayServer)
    → (int.relay_allowlist_path ≡ "")
      ⊎ ((IsListed int d.address × (source_of int remote ≡ d.address))
          ⊎ (register_relay env int remote (some d) rows
              ≡ (write_error 403 "relay not allowed", rows)))
register_relay-allowed env int remote d rows =
    elim (Option-cases (check_relay_allowed int remote d.address)) [
      | inr (e, q) ↦ inr (inr (refused env int remote d rows e q))
      | inl q ↦ elim (Bool-cases (int.relay_allowlist_path == "")) [
        | inl p ↦ inl ((==_iff int.relay_allowlist_path "").0 p)
        | inr p ↦ inr (
            inl
              (listed int remote d.address int.file refl (sym (behind int remote d.address p) ∙ q)))
      ]
    ]
