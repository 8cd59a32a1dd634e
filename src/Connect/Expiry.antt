-- ===== src/Connect/Expiry.antt =====
-- Expired values: a read of one gives nothing, and the clean-up changes no read.
use Prim.Native.String.{String}
use dwn_server.Common.{ℕ, ◌≡◌, not, none, List, [], ◌∷◌, arith, ◌≤◌, inl, inr, ◌⊎◌, ltb, filter}
use dwn_server.Errors.{ok}
use dwn_server.Connect.{
  CacheEntry, CacheTable, JsonText, Server, delete_key, delete_older, execute, settle, send,
  cache_get, clean_up_expired_entries, read_entry,
}
use dwn_server.Connect.Table.{IsTable, settled, settle-send, settle-settled}

module _ (T : CacheTable) (J : JsonText) where
  open T use {select}

  -- A read at or after the expiry of an entry gives nothing, whatever the entry holds, and sends the
  -- entry's deletion.
  pub cache_get_expired :
      (now : ℕ) (key : String) (entry : CacheEntry) (more : List CacheEntry) (s : Server T.Db)
      → select key s.db ≡ entry ∷ more
      → entry.expiry ≤ now
      → cache_get T J now key s ≡ (send T (delete_key key) s, ok none)
  unfolding cache_get
  cache_get_expired now key entry more s found old = ground (arith, found)

  module _ (laws : IsTable T) where
    read_filtered :
        (cleaned_at now : ℕ) (key : String) (rows : List CacheEntry) (s s' : Server T.Db)
        → (rows ≡ []) ⊎ ((e : CacheEntry) × (rows ≡ e ∷ []))
        → cleaned_at ≤ now
        → (read_entry T J now key (filter (λ e. not (ltb e.expiry cleaned_at)) rows) s').1
          ≡ (read_entry T J now key rows s).1
    read_filtered cleaned_at now key rows s s' (inl none_found) later = ground (arith, none_found)
    read_filtered cleaned_at now key rows s s' (inr (e, one)) later = ground (arith, one)

    -- When the clean-up has run, a read at that time or later has the outcome that it would have had
    -- without it.
    pub cache_get-clean_up_expired_entries :
        (cleaned_at now : ℕ) (key : String) (s : Server T.Db)
        → cleaned_at ≤ now
        → (cache_get T J now key (settle T (clean_up_expired_entries T cleaned_at s))).1
          ≡ (cache_get T J now key (settle T s)).1
    unfolding cache_get clean_up_expired_entries execute
    cache_get-clean_up_expired_entries cleaned_at now key s later =
        let d = delete_older cleaned_at in
        rw
          (
            settle-send T d s,
            settle-settled T s,
            laws.select-delete_expired key cleaned_at (settled T s),
          )
          (read_filtered cleaned_at now key (select key (settled T s)) _ _
            (laws.select_one key (settled T s)) later)
