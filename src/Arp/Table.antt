-- ===== src/Arp/Table.antt =====
-- The ARP table: what a lookup finds after an entry was added, and the bound on its size.
use base_t1s.Prelude.{
  ℕ, suc, ◌≤◌, ◌<◌, false, List, [], ◌∷◌, ◌++◌, Option, some, none, ok, err, ◌≡◌, refl, arith, ◌⊎◌,
  inl, inr, length, length-append, Bool-cases, Option-cases, if◌then◌else◌, ◌∙◌, ap,
}
use native.Mathlib.Decide.{dec_lt}
use base_t1s.Tc6.Ctrl.{bytes_eq}
use base_t1s.Tc6.Ctrl.Reply.{bytes_eq-eq, bytes_eq_refl}
use base_t1s.Arp.{ArpEntry, update_entry, add_to_arp_table, max_entries, ret_fail}

-- The address that the table has for `ip`.
unfoldable pub lookup : List ℕ → List ArpEntry → Option (List ℕ)
lookup ip [] = none
lookup ip (e ∷ es) = if bytes_eq e.ip ip then some e.mac else lookup ip es

-- What changing an entry comes to: it fails exactly if the address is not in the table.
update_entry-cases :
    (ip mac : List ℕ) (es : List ArpEntry)
    → ((update_entry ip mac es ≡ none) × (lookup ip es ≡ none))
      ⊎ ((es' : List ArpEntry) × (update_entry ip mac es ≡ some es')
          × (length es' ≡ length es)
          × (lookup ip es' ≡ some mac)
          × ((old : List ℕ) × (lookup ip es ≡ some old)))
unfolding update_entry lookup
update_entry-cases ip mac [] = inl (refl, refl)
update_entry-cases ip mac (e ∷ es) = elim (Bool-cases (bytes_eq e.ip ip)) [
  | inl same ↦ inr (
    record { ip = e.ip; mac = mac } ∷ es,
    rw same refl,
    refl,
    rw same refl,
    (e.mac, rw same refl),
  )
  | inr other ↦ elim (update_entry-cases ip mac es) [
    | inl (u, l) ↦ inl (rw (other, u) refl, rw other l)
    | inr (es', u, n, l, (old, o)) ↦
        inr (e ∷ es', rw (other, u) refl, ap suc n, rw other l, (old, rw other o))
  ]
]

-- Entries with other addresses are left alone.
update_entry-other :
    (ip mac other : List ℕ) (es es' : List ArpEntry)
    → update_entry ip mac es ≡ some es'
    → bytes_eq ip other ≡ false
    → lookup other es' ≡ lookup other es
unfolding update_entry lookup
update_entry-other ip mac other [] es' u ne = cc
update_entry-other ip mac other (e ∷ es) es' u ne = elim (Bool-cases (bytes_eq e.ip ip)) [
  | inl same ↦
      let here : e.ip ≡ ip = bytes_eq-eq e.ip ip same in
      let away : bytes_eq e.ip other ≡ false = ap (λ a. bytes_eq a other) here ∙ ne in
      let changed : some (record { ip = e.ip; mac = mac } ∷ es) ≡ some es' = rw same at u in
      ground (arith, away, changed)
  | inr apart ↦ elim (Option-cases (update_entry ip mac es)) [
    | inl nowhere ↦ ground (arith, apart, nowhere, u)
    | inr (es2, found) ↦
        let rest = update_entry-other ip mac other es es2 found ne in
        ground (arith, apart, found, u, rest)
  ]
]

lookup-append :
    (ip mac : List ℕ) (es : List ArpEntry)
    → lookup ip es ≡ none
    → lookup ip (es ++ record { ip = ip; mac = mac } ∷ []) ≡ some mac
unfolding lookup
lookup-append ip mac [] h = rw (bytes_eq_refl ip) refl
lookup-append ip mac (e ∷ es) h = ground (arith, lookup-append ip mac es)

lookup-append_other :
    (ip mac other : List ℕ) (es : List ArpEntry)
    → bytes_eq ip other ≡ false
    → lookup other (es ++ record { ip = ip; mac = mac } ∷ []) ≡ lookup other es
unfolding lookup
lookup-append_other ip mac other [] ne = rw ne refl
lookup-append_other ip mac other (e ∷ es) ne =
    ground (arith, lookup-append_other ip mac other es ne)

added-known :
    (ip mac : List ℕ) (table table' : List ArpEntry)
    → update_entry ip mac table ≡ some table'
    → add_to_arp_table ip mac table ≡ (ok tt, table')
unfolding add_to_arp_table
added-known ip mac table table' u = rw (u, add_to_arp_table) refl

added-new :
    (ip mac : List ℕ) (table : List ArpEntry)
    → update_entry ip mac table ≡ none
    → length table < max_entries
    → add_to_arp_table ip mac table ≡ (ok tt, table ++ record { ip = ip; mac = mac } ∷ [])
unfolding add_to_arp_table
added-new ip mac table u h = ground arith

added-full :
    (ip mac : List ℕ) (table : List ArpEntry)
    → update_entry ip mac table ≡ none
    → max_entries ≤ length table
    → add_to_arp_table ip mac table ≡ (err ret_fail, table)
unfolding add_to_arp_table
added-full ip mac table u h = ground arith

-- If the address is in the table or there is room, the call succeeds and a lookup of the address
-- then finds the new MAC address; otherwise it fails with -RET_FAIL and keeps the table. Lookups of
-- all other addresses stay as they are, and a table of at most 100 entries stays one.
pub add_to_arp_table-lookup :
    (ip mac : List ℕ) (table : List ArpEntry)
    → length table ≤ max_entries
    → let r = add_to_arp_table ip mac table in
      (((r.0 ≡ ok tt) × (lookup ip r.1 ≡ some mac))
        ⊎ ((r.0 ≡ err ret_fail)
            × (r.1 ≡ table)
            × (lookup ip table ≡ none)
            × (length table ≡ max_entries)))
      × ((other : List ℕ) → bytes_eq ip other ≡ false → lookup other r.1 ≡ lookup other table)
      × (length r.1 ≤ max_entries)
add_to_arp_table-lookup ip mac table le = elim (update_entry-cases ip mac table) [
  | inr (es', u, n, l, o) ↦
      rw (added-known ip mac table es' u)
        (inl (refl, l), λ other ne. update_entry-other ip mac other table es' u ne, omega arith)
  | inl (u, l) ↦ elim (dec_lt (length table) max_entries) [
    | yes room ↦ rw (added-new ip mac table u room) (
      inl (refl, lookup-append ip mac table l),
      λ other ne. lookup-append_other ip mac other table ne,
      omega (arith, length-append {A = ArpEntry} table (record { ip = ip; mac = mac } ∷ [])),
    )
    | no full ↦
        rw (added-full ip mac table u (omega arith))
          (inr (refl, refl, l, omega arith), λ other ne. refl, le)
  ]
]
