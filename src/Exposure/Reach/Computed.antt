-- ===== src/Exposure/Reach/Computed.antt =====
-- `Reachability::compute` of src/exposure/reach.rs.
use census.Prelude.Map
use census.Exposure.Reach.{
  reachable_dir, parent_dir, Cache, is_reachable, compute, collect_reachable, PermissionIndex,
}
use census.Exposure.Access.{InodeRecord, Principal}
use census.Prelude.{
  ap, ◌∙◌, sym, inl, Bool-cases, refl, arith, any_of_In, str_eq_iff, subst, length, suc, str_eq,
  any-true, [], ◌↔◌, true, inr, false, ◌≡◌, ◌∷◌, In, ◌==◌, Text, List,
}
use census.Exposure.Reach.Climb.{reachable_dir-Right, Right, IsSound, Enters}

module _ (index : PermissionIndex) (principal : Principal) (roots : List Text) where
  -- An indexed inode whose directory can be entered.
  pub record Reached (records : List InodeRecord) (path : Text) : Type 0 where
    pub rec : InodeRecord
    pub listed : In rec records
    pub named : rec.path ≡ path
    pub enters : Enters index principal roots (parent_dir rec.path)

  later :
      (r : InodeRecord) (records : List InodeRecord) (path : Text)
      → Reached records path
      → Reached (r ∷ records) path
  later r records path x = record {
    rec = x.rec;
    listed = inr x.listed;
    named = x.named;
    enters = x.enters;
  }

  collect_reachable-In :
      (records : List InodeRecord) (cache : Cache)
      → IsSound index principal roots cache
      → (path : Text)
      → In path (collect_reachable records index principal roots cache) ↔ Reached records path
  unfolding collect_reachable
  collect_reachable-In [] cache s path = (λ h. absurd h, λ x. absurd x.listed)
  collect_reachable-In (r ∷ records) cache s path =
      let parent = parent_dir r.path in
      let here = reachable_dir (suc (length parent)) parent index principal roots cache in
      let right : Right index principal roots parent here =
        reachable_dir-Right index principal roots (suc (length parent)) parent cache (omega arith)
          s in
      let rest = collect_reachable-In records here.1 right.1 path in
      elim (Bool-cases here.0) [
        | inl e ↦ rw e (
          λ h. elim h [
            | inl q ↦ record { rec = r; listed = inl refl; named = sym q; enters = right.0.0 e }
            | inr i ↦ later r records path (rest.0 i)
          ],
          λ x. elim x.listed [
            | inl q ↦ inl (sym x.named ∙ ap (λ (y : InodeRecord). y.path) q)
            | inr i ↦
                inr
                  (rest.1 (record { rec = x.rec; listed = i; named = x.named; enters = x.enters }))
          ],
        )
        | inr e ↦ rw e (
          λ i. later r records path (rest.0 i),
          λ x. elim x.listed [
            | inl q ↦ absurd (
                cc (
                  e,
                  right.0.1 (
                      subst (λ (y : InodeRecord). Enters index principal roots (parent_dir y.path))
                        q x.enters),
                ))
            | inr i ↦
                rest.1 (record { rec = x.rec; listed = i; named = x.named; enters = x.enters })
          ],
        )
      ]

  is_reachable-In : (l : List Text) (path : Text) → (is_reachable l path ≡ true) ↔ In path l
  unfolding is_reachable
  is_reachable-In l path = (
    λ h.
        let r = any-true (λ p. str_eq p path) l h in
        subst (λ x. In x l) ((str_eq_iff r.0 path).0 r.2) r.1,
    λ i. any_of_In (λ p. str_eq p path) path l i ((str_eq_iff path path).1 refl),
  )

  -- A principal other than root reaches exactly the indexed inodes whose directory can be entered:
  -- the climb from it to the scan root, remembered verdicts included, finds the search permission on
  -- every directory.
  pub compute-Reached_iff :
      (path : Text)
      → (principal.uid == 0) ≡ false
      → (is_reachable (compute index principal roots) path ≡ true) ↔ Reached index.records path
  unfolding compute Map.get
  compute-Reached_iff path u =
      let c = is_reachable-In (collect_reachable index.records index principal roots []) path in
      let m = collect_reachable-In index.records [] (λ k v h. absurd (cc h)) path in
      rw u (λ h. m.0 (c.0 h), λ x. c.1 (m.1 x))
