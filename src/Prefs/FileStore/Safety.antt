-- ===== src/Prefs/FileStore/Safety.antt =====
-- File names made from usernames, and what is read after a save.
use etcdmonitor.Prelude.{
  String, ◌≡◌, ◌≢◌, refl, ap, ◌∙◌, Bool, true, false, some, ok, arith, eq_iff, ◌==◌, nat_eq,
  string_eq, if◌then◌else◌, lookup, lookup-insert, ==_refl,
}
use etcdmonitor.Prefs.Panels.{PanelConfig, merge_with_defaults}
use etcdmonitor.Prefs.FileStore.{
  is_safe, safe_part, sanitize_username, user_file_path, FileStore, stored, read_done, saved, load,
  save, loaded,
}

-- Every character of a text is allowed in a file name.
abbrev pub AllSafe : String → Type 0
AllSafe String.[] = Unit
AllSafe (String.◌∷◌ c s) = (is_safe c ≡ true) × AllSafe s

safe_part-AllSafe : (s : String) → AllSafe (safe_part s)
unfolding safe_part
safe_part-AllSafe String.[] = tt
safe_part-AllSafe (String.◌∷◌ c s) = keep (is_safe c) refl (safe_part-AllSafe s)
  where
    keep :
        (b : Bool)
        → is_safe c ≡ b
        → AllSafe (safe_part s)
        → AllSafe (if b then String.◌∷◌ c (safe_part s) else safe_part s)
    keep true e h = (e, h)
    keep false e h = h

safe_part-all : (s : String) → AllSafe s → safe_part s ≡ s
unfolding safe_part
safe_part-all String.[] h = refl
safe_part-all (String.◌∷◌ c s) h = rw h.0 (ap (String.◌∷◌ c) (safe_part-all s h.1))

-- The name that stands for an empty one
named_or : String → String
named_or r = if r == "" then "_anonymous" else r

anonymous-AllSafe : AllSafe "_anonymous"
unfolding is_safe
anonymous-AllSafe =
    (refl, (refl, (refl, (refl, (refl, (refl, (refl, (refl, (refl, (refl, tt))))))))))

named_or-AllSafe : (r : String) → AllSafe r → AllSafe (named_or r)
unfolding named_or
named_or-AllSafe r h = pick (r == "")
  where
    pick : (b : Bool) → AllSafe (if b then "_anonymous" else r)
    pick true = anonymous-AllSafe
    pick false = h

named_or-nonempty : (r : String) → named_or r ≢ ""
unfolding named_or
named_or-nonempty r = ground (arith, eq_iff r "", eq_iff "_anonymous" "")

named_or_self : (r : String) → r ≢ "" → named_or r ≡ r
unfolding named_or
named_or_self r h = ground (arith, eq_iff r "", h)

-- A cleaned name has only letters, digits, `_`, `-` and `.`, is never empty, and is its own cleaned
-- name.
pub sanitize_username-AllSafe :
    (username : String)
    → AllSafe (sanitize_username username)
      × (sanitize_username username ≢ "")
      × (sanitize_username (sanitize_username username) ≡ sanitize_username username)
unfolding sanitize_username named_or
sanitize_username-AllSafe username =
    let name = named_or (safe_part username) in
    let safe = named_or-AllSafe (safe_part username) (safe_part-AllSafe username) in
    let filled = named_or-nonempty (safe_part username) in
    (safe, filled, ap named_or (safe_part-all name safe) ∙ named_or_self name filled)

-- After a save, `Load` returns for the same file name the saved cards and the saved panels,
-- repaired; a user with another file name reads what was read before.
pub load-save :
    (username other : String) (cfg : PanelConfig) (s : FileStore)
    → let after = (save username cfg saved s).1 in
      (load username read_done after ≡ ok (record cfg { panels = merge_with_defaults cfg.panels }))
      × (user_file_path username ≢ user_file_path other
          → load other read_done after ≡ load other read_done s)
unfolding load save loaded
load-save username other cfg s =
    let path = user_file_path username in
    (
      ap (λ o. ok (loaded o))
          (lookup-insert path path (stored cfg) s.files
            ∙ ap (λ b. if b then some (stored cfg) else lookup path s.files) (==_refl path)),
      λ ne.
          ap (λ o. ok (loaded o))
            (lookup-insert path (user_file_path other) (stored cfg) s.files
              ∙ ground (arith, eq_iff path (user_file_path other), ne)),
    )
