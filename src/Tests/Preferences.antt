-- ===== src/Tests/Preferences.antt =====
-- Examples of settings.
use localsend_nas.Filepath.{clean, clean_from, clean_step, ext, go_up, join_path, split_file}
use localsend_nas.Prelude.{
  ℕ, zero, suc, Bool, true, false, [], ◌∷◌, Str, codes, ℤ, pos, negsuc, Result, ok, err,
  ok-injective, ◌≡◌, ◌⊎◌, refl, sym, ap, ◌∙◌, arith, contains_byte, cut, decimal, decimal_from,
  delete, drop_prefix, equal_fold, has_prefix, has_suffix, hex, insert, insert_sorted, join, lookup,
  replace_byte, scan_digits, skip_blanks, sort, split, sscanf_int, str_eq, str_lt, to_lower,
  to_lower_byte, to_upper, to_upper_byte, trim_prefix, trim_space, trim_suffix, ◌+₆₄◌,
}
use localsend_nas.Settings
use localsend_nas.Settings.{Codec, SettingsError, settings_path, clamp, load, update}
use localsend_nas.Settings.Range.{CodecLaws, load-update}
use localsend_nas.Tests.Disk.{Disk, memory, memory-FileLaws}
use localsend_nas.Tests.Scene.{nas}

abbrev low : Settings.Settings
low = record { accept_timeout_sec = pos 1; dropbox_share = nas; show_nas_noise = true }

-- A codec: the sign and the size of the number, the flag, and the name.
abbrev flag : Bool → ℕ
flag true = 1
flag false = 0

abbrev pub encode : Settings.Settings → Str
encode s = elim s.accept_timeout_sec [
  | pos n ↦ 0 ∷ n ∷ flag s.show_nas_noise ∷ s.dropbox_share
  | negsuc n ↦ 1 ∷ n ∷ flag s.show_nas_noise ∷ s.dropbox_share
]

abbrev number : ℕ → ℕ → ℤ
number zero n = pos n
number (suc _) n = negsuc n

abbrev unflag : ℕ → Bool
unflag zero = false
unflag (suc _) = true

abbrev pub decode : Str → Result Str Settings.Settings
decode (sign ∷ n ∷ noise ∷ share) = ok (record {
  accept_timeout_sec = number sign n;
  dropbox_share = share;
  show_nas_noise = unflag noise;
})
decode _ = err (codes "bad file")

abbrev pub codec : Codec
codec = record { encode = λ s. ok (encode s); decode = decode }

decode-encode : (s : Settings.Settings) → decode (encode s) ≡ ok s
decode-encode s = ground arith

codec-CodecLaws : CodecLaws codec
codec-CodecLaws = record {
  decode-encode = λ s bytes h. ap decode (sym (ok-injective h)) ∙ decode-encode s;
}

abbrev dir : Str
dir = codes "/data"

abbrev store : Settings.Store
store = record { path = codes "/data/settings.json"; s = record low { accept_timeout_sec = pos 5 } }

abbrev disk : Disk
disk = record { dirs = dir ∷ []; files = (codes "/data/settings.json", encode low) ∷ [] }

store_path : store.path ≡ settings_path dir
unfolding lookup insert delete str_eq split replace_byte trim_prefix trim_suffix contains_byte
    drop_prefix has_prefix has_suffix join ◌+₆₄◌ equal_fold to_lower to_lower_byte str_lt
    insert_sorted sort decimal_from decimal cut skip_blanks trim_space scan_digits sscanf_int
    to_upper to_upper_byte hex clean clean_from clean_step go_up join_path split_file ext
store_path = refl

load-update_example :
    (((update memory codec disk store low).0 ≡ ok (clamp low))
      × ((update memory codec disk store low).1.s ≡ clamp low)
      × (load memory codec (update memory codec disk store low).2 dir
          ≡ ok (update memory codec disk store low).1))
    ⊎ ((e : SettingsError) × ((update memory codec disk store low).0 ≡ err e)
        × ((update memory codec disk store low).1 ≡ store))
load-update_example =
    load-update memory codec disk dir store low memory-FileLaws codec-CodecLaws store_path
