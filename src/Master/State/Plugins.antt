-- ===== src/Master/State/Plugins.antt =====
-- Which workers a plugin is routed to.
use map_reduce_rpc.Prelude.{
  ℕ, ◌≡◌, refl, ap, ◌∙◌, sym, arith, Bool, true, false, ◌||◌, ◌&&◌, Option, none, some, List, [],
  ◌∷◌, ◌++◌, length, eqb, if◌then◌else◌, list_eq, nat_eq, ◌==◌, ==_iff, ==_refl, if-true,
  Bool-cases, inl, inr,
}
use map_reduce_rpc.Prelude.Assoc.{Assoc, lookup, lookup-store}
use map_reduce_rpc.Prelude.Trim.{trim_space, split_at}
use map_reduce_rpc.Utils.Slices.{contains}
use map_reduce_rpc.Utils.Grouping.{IsUnique, IsUnique-append}
use map_reduce_rpc.Master.State.{
  Master, parse_loop, parse_worker_addresses, learned, probe_workers, or_no_plugin, matching,
  get_workers_for_plugin,
}

-- What is known of a worker after it may have been asked.
abbrev pub asked : Bool → Option (List ℕ) → Option (List ℕ) → Option (List ℕ)
asked listed none answer = if listed then answer else none
asked listed (some plugin) answer = some plugin

asked-asked : (b c : Bool) (o r : Option (List ℕ)) → asked b (asked c o r) r ≡ asked (c || b) o r
asked-asked b true none none = ground arith
asked-asked b true none (some r) = refl
asked-asked b false none r = refl
asked-asked b c (some p) r = refl

learned-lookup :
    (a addr : List ℕ) (known : Assoc (List ℕ) (List ℕ)) (probe : List ℕ → Option (List ℕ))
    → lookup addr (learned a (lookup a known) (probe a) known)
      ≡ asked (a == addr) (lookup addr known) (probe addr)
learned-lookup a addr known probe = elim (Bool-cases (a == addr)) [
  | inl same ↦
      rw (sym ((==_iff a addr).0 same), ==_refl a) (itself (lookup a known) refl (probe a) refl)
  | inr other ↦ rw other (elsewhere (lookup a known) (probe a) other)
]
  where
    itself :
        (o : Option (List ℕ))
        → lookup a known ≡ o
        → (r : Option (List ℕ)) → probe a ≡ r
        → lookup a (learned a (lookup a known) (probe a) known)
          ≡ asked true (lookup a known) (probe a)
    itself none e none f = rw (e, f) e
    itself none e (some r) f = rw (e, f) (lookup-store a a r known ∙ if-true (==_refl a) _)
    itself (some p) e r f = rw e e

    elsewhere :
        (o r : Option (List ℕ))
        → (a == addr) ≡ false
        → lookup addr (learned a o r known) ≡ asked false (lookup addr known) (probe addr)
    elsewhere none none other = ground arith
    elsewhere none (some r) other = ground (arith, lookup-store a addr r known, other)
    elsewhere (some p) r other = ground arith

probe_workers-lookup :
    (probe : List ℕ → Option (List ℕ)) (addrs : List (List ℕ)) (known : Assoc (List ℕ) (List ℕ))
    (addr : List ℕ)
    → lookup addr (probe_workers probe addrs known)
      ≡ asked (contains addrs addr) (lookup addr known) (probe addr)
unfolding probe_workers contains
probe_workers-lookup probe [] known addr = ground arith
probe_workers-lookup probe (a ∷ addrs) known addr =
    probe_workers-lookup probe addrs (learned a (lookup a known) (probe a) known) addr
    ∙ ap (λ (o : Option (List ℕ)). asked (contains addrs addr) o (probe addr))
        (learned-lookup a addr known probe)
    ∙ asked-asked (contains addrs addr) (a == addr) (lookup addr known) (probe addr)

contains-matching :
    (known : Assoc (List ℕ) (List ℕ)) (plugin : List ℕ) (addrs : List (List ℕ)) (addr : List ℕ)
    → contains (matching known plugin addrs) addr
      ≡ (contains addrs addr && or_no_plugin (lookup addr known) == plugin)
unfolding matching contains
contains-matching known plugin [] addr = refl
contains-matching known plugin (a ∷ addrs) addr =
    ground (arith, contains-matching known plugin addrs addr, ==_iff a addr)

-- The workers for a plugin are exactly the configured ones that have it, by what was known of them or,
-- failing that, by what they answer now; what was known is not asked for again. A worker that does not
-- answer stays unknown and counts as having the empty plugin.
pub get_workers_for_plugin_lem :
    (probe : List ℕ → Option (List ℕ)) (plugin : List ℕ) (m : Master) (addr : List ℕ)
    → (contains (get_workers_for_plugin probe plugin m).1 addr ≡ (
        contains m.worker_addresses addr
        && or_no_plugin (asked true (lookup addr m.worker_plugins) (probe addr)) == plugin))
      × (lookup addr (get_workers_for_plugin probe plugin m).0.worker_plugins
          ≡ asked (contains m.worker_addresses addr) (lookup addr m.worker_plugins) (probe addr))
unfolding get_workers_for_plugin
get_workers_for_plugin_lem probe plugin m addr =
    let found = probe_workers-lookup probe m.worker_addresses m.worker_plugins addr in
    let listed =
      contains-matching (probe_workers probe m.worker_addresses m.worker_plugins) plugin
        m.worker_addresses addr in
    (
      elim (Bool-cases (contains m.worker_addresses addr)) [
        | inl yes_listed ↦ listed ∙ rw (found, yes_listed) refl
        | inr not_listed ↦ listed ∙ rw not_listed refl
      ],
      found,
    )

parse_loop-IsUnique :
    (parts result : List (List ℕ)) → IsUnique result → IsUnique (parse_loop parts result)
unfolding parse_loop
parse_loop-IsUnique [] result h = h
parse_loop-IsUnique (part ∷ parts) result h =
    elim (Bool-cases (eqb (length (trim_space part)) 0 || contains result (trim_space part))) [
      | inl skip ↦ rw skip (parse_loop-IsUnique parts result h)
      | inr new ↦ rw new (
          parse_loop-IsUnique parts (result ++ trim_space part ∷ [])
            (IsUnique-append result (trim_space part) (ground arith) h))
    ]

-- No worker address is listed twice, so that no worker gets two shares of the chunks.
pub parse_worker_addresses-IsUnique : (raw : List ℕ) → IsUnique (parse_worker_addresses raw)
unfolding parse_worker_addresses
parse_worker_addresses-IsUnique raw = parse_loop-IsUnique (split_at b',' raw) [] tt
