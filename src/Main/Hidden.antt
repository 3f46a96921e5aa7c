-- ===== src/Main/Hidden.antt =====
-- The filter that cmd/localsend-nas/main.go sets on the listings of internal/shares/shares.go.
use localsend_nas.Prelude.{
  false, List, [], ◌∷◌, Str, has_suffix, All, All-sort, ◌∙◌, Bool-cases, Result-cases, ◌≡◌, sym,
  inl, inr, arith,
}
use localsend_nas.Host.{Host, DirEntry}
use localsend_nas.Shares
use localsend_nas.Shares.{Entry, Store, hidden, collect, keep_entry, nas_noise, entry, entry_less}
use localsend_nas.Shares.Order.{list-eq-sort}
use localsend_nas.Settings.{Settings}
use localsend_nas.Receive.Upload.{part_suffix}
use localsend_nas.HttpApi.{Api, reply, entries, handle_list}
use localsend_nas.Main.{hide_entry, filtered, with_filter}

collect-shown :
    (st : Store) (rel : Str) (des : List DirEntry)
    → All (λ e. hidden st e.name ≡ false) (collect st rel des)
unfolding collect entry
collect-shown st rel [] = tt
collect-shown st rel (de ∷ des) = elim (Bool-cases (hidden st de.name)) [
  | inl q ↦ rw q (collect-shown st rel des)
  | inr q ↦ elim (Result-cases de.info) [
    | inl (fi, k) ↦ rw (q, keep_entry, k) (q, collect-shown st rel des)
    | inr (e, k) ↦ rw (q, keep_entry, k) (collect-shown st rel des)
  ]
]

-- An entry that the settings let through: no partial file of an upload, and no metadata of a NAS
-- unless these are wanted.
pub record IsShown (s : Settings) (e : Entry) : Type 0 where
  pub not_partial : has_suffix e.name part_suffix ≡ false
  pub not_noise : s.show_nas_noise ≡ false → nas_noise e.name ≡ false

hide_entry-IsShown : (s : Settings) (e : Entry) → hide_entry s e.name ≡ false → IsShown s e
unfolding hide_entry
hide_entry-IsShown s e h = record {
  not_partial = ground (arith, h);
  not_noise = λ k. ground (arith, h, k);
}

All-IsShown :
    (s : Settings) (es : List Entry)
    → All (λ e. hide_entry s e.name ≡ false) es
    → All (IsShown s) es
All-IsShown s [] h = tt
All-IsShown s (e ∷ es) (h, hs) = (hide_entry-IsShown s e h, All-IsShown s es hs)

-- A listing that the web UI gets never has a partial file of an upload in it, and no metadata of a
-- NAS unless the settings of the moment say so.
pub handle_list-IsShown :
    {D : Type 0} (host : Host D) (to_lower : Str → Str) (share rel : Str) (a : Api) (d : D)
    (es : List Entry)
    → handle_list host to_lower share rel (with_filter a) d ≡ reply 200 (entries es)
    → All (IsShown a.settings.s) es
unfolding handle_list
handle_list-IsShown host to_lower share rel a d es h =
    let store = filtered a.settings.s a.store in
    elim (Result-cases (Shares.list host d to_lower store share rel)) [
      | inr (e, q) ↦ cc (h, rw (handle_list, q) at h)
      | inl (found, q) ↦
          let same : found ≡ es = ground (arith, rw (handle_list, q) at h) in
          let (p, des, resolved, read, sorted) =
            list-eq-sort host d to_lower store share rel found q in
          let shown =
            All-sort (λ e. hide_entry a.settings.s e.name ≡ false) (entry_less to_lower)
              (collect store rel des) (collect-shown store rel des) in
          All-IsShown a.settings.s es (rw (sym (sorted ∙ same)) shown)
    ]
