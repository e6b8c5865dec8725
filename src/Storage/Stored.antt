-- ===== src/Storage/Stored.antt =====
-- What is read back from the storage.
use bridge_framework.Base.{
  ℕ, ◌≡◌, refl, sym, ap, ◌∙◌, Bool, true, false, List, length, arith, if◌then◌else◌, Bool-cases,
  inl, inr, Result, ok, err, ◌>>=◌, ◌==◌, nat_eq, list_eq, Chars,
}
use bridge_framework.Base.Map
use bridge_framework.Base.Map.{Map, get-insert, get-remove}
use bridge_framework.Auth.Sound.Tokens.{through, result_or}
use bridge_framework.Storage.{
  Components, Disk, StorageRegistry, StorageError, create_folders, write, parent, located,
  with_disk, put_object, get_object, object_not_found, ok_or,
}

made-files :
    (b : Bool) (e : StorageError) (d d2 : Disk) (files : Map Components (List ℕ))
    → d.files ≡ files
    → (if b then err e else ok d) ≡ ok d2
    → d2.files ≡ files
unfolding result_or
made-files true e d d2 files same h = absurd (ground arith)
made-files false e d d2 files same h = ap (λ x. x.files) (sym (ap (result_or d) h)) ∙ same

abbrev found : Components → Map Components (List ℕ) → Result StorageError (List ℕ)
found p files = ok_or object_not_found (Map.get p files)

read_back :
    (p : Components) (body : List ℕ) (files later : Map Components (List ℕ))
    (l : Result StorageError Components)
    → later ≡ Map.insert p body files
    → (l >>= (λ q. found q later))
      ≡ (l >>= (λ q. if p == q then ok body else (l >>= (λ x. found x files))))
read_back p body files later (err e) written = refl
read_back p body files later (ok q) written =
    ap (found q) written
    ∙ ap (ok_or object_not_found) (get-insert q p body files)
    ∙ elim (Bool-cases (p == q)) [ inl here ↦ rw here refl | inr there ↦ rw there refl ]

-- An object that was stored is read back under every key that leads to the same path, and every other
-- object is read as before.
pub get_object-put_object :
    (bucket key bucket2 key2 : Chars) (body : List ℕ) (r : StorageRegistry)
    → (s : StorageRegistry × ℕ) → put_object bucket key body r ≡ ok s
    → (s.1 ≡ length body)
      × (get_object bucket2 key2 s.0 ≡ (
          located bucket key r >>= (λ p.
            located bucket2 key2 r
            >>= (λ q. if p == q then ok body else get_object bucket2 key2 r))))
unfolding put_object get_object result_or create_folders write located
get_object-put_object bucket key bucket2 key2 body r s h =
    let at = through (located bucket key r) _ s h in
    let p = at.0 in
    let done =
      through (create_folders (parent p) r.disk >>= write p body)
        (λ disk. ok (with_disk r disk, length body)) s at.2 in
    let made = through (create_folders (parent p) r.disk) (write p body) done.0 done.1 in
    let kept : made.0.files ≡ r.disk.files = made-files _ _ _ made.0 r.disk.files refl made.1 in
    let written : done.0.files ≡ Map.insert p body r.disk.files =
      made-files _ _ _ done.0 (Map.insert p body made.0.files) refl made.2
      ∙ ap (Map.insert p body) kept in
    let same : (with_disk r done.0, length body) ≡ s = ap (result_or s) done.2 in
    (
      ap (λ x. x.1) (sym same),
      ap (λ x. get_object bucket2 key2 x.0) (sym same)
          ∙ read_back p body r.disk.files done.0.files (located bucket2 key2 r) written
          ∙ sym (
              ap
                (λ l. l >>= (λ x.
                  located bucket2 key2 r
                  >>= (λ q. if x == q then ok body else get_object bucket2 key2 r)))
                at.1),
    )
