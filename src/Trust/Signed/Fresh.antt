-- ===== src/Trust/Signed/Fresh.antt =====
-- The validity windows that `freshness` of src-tauri/src/registry/trust.rs lets pass.
use starframe.Prelude.{
  ℕ, ◌+◌, ◌-◌, ◌*◌, ◌≡◌, subst, true, not, ◌||◌, Text, leb, ltb, ◌≤◌, ◌<◌, arith,
}
use starframe.Prelude.Outcome.{ok, >>=-eq-ok, ok_inj, ensure->>-eq-ok, or_panic-eq-ok}
use starframe.Json.{JsonLibrary}
use starframe.Trust.Signed.{TrustLibrary, date, add_time, freshness}

module _ (json : JsonLibrary) (lib : TrustLibrary json) where
  -- A document is issued at most five minutes ahead of the clock, and has not expired.
  pub record IsFresh (issued_at expires_at : Text) (now limit expires : ℕ) : Type 0 where
    pub issued : ℕ
    pub issued_read : date json lib issued_at ≡ ok issued
    pub expires_read : date json lib expires_at ≡ ok expires
    pub not_early : issued ≤ now + 5 * lib.minute
    pub not_expired : now < expires
    pub in_order : issued < expires
    pub in_limit : expires - issued ≤ limit

  sum_of :
      (time duration : ℕ) {sum : ℕ}
      → add_time json lib time duration ≡ ok sum
      → sum ≡ time + duration
  unfolding add_time
  sum_of time duration h = ground (arith, or_panic-eq-ok _ h)

  window :
      (soon now issued expires limit : ℕ)
      → not
          (ltb soon issued || leb expires now || leb expires issued || ltb limit (expires - issued))
        ≡ true
      → (issued ≤ soon) × (now < expires) × (issued < expires) × (expires - issued ≤ limit)
  window soon now issued expires limit h = ground arith

  pub freshness-IsFresh :
      (issued_at expires_at : Text) (now limit : ℕ) {expires : ℕ}
      → freshness json lib issued_at expires_at now limit ≡ ok expires
      → IsFresh issued_at expires_at now limit expires
  unfolding freshness
  freshness-IsFresh issued_at expires_at now limit {expires = result} h =
      let issued = >>=-eq-ok (date json lib issued_at) _ h in
      let expires = >>=-eq-ok (date json lib expires_at) _ issued.2 in
      let soon = >>=-eq-ok (add_time json lib now (5 * lib.minute)) _ expires.2 in
      let tested = ensure->>-eq-ok _ _ _ soon.2 in
      let bounds = window soon.0 now issued.0 expires.0 limit tested.0 in
      let e = ok_inj _ _ tested.1 in
      subst (IsFresh issued_at expires_at now limit) e (record {
        issued = issued.0;
        issued_read = issued.1;
        expires_read = expires.1;
        not_early = subst (λ s. issued.0 ≤ s) (sum_of now (5 * lib.minute) soon.1) bounds.0;
        not_expired = bounds.1;
        in_order = bounds.2;
        in_limit = bounds.3;
      })
