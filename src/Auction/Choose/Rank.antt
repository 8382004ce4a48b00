-- ===== src/Auction/Choose/Rank.antt =====
-- The ranking of `chooseCampaign`: what the first loop leaves as the winning campaigns.
use guidance_for_building_a.Common.{
  append-nil, append_assoc, ℕ, ◌≡◌, ◌≢◌, ◌⊎◌, refl, sym, ◌∙◌, List, [], ◌∷◌, ◌++◌, false, true,
  ◌&&◌, ◌==◌, ==_iff, ==_self, Bool-cases, inl, inr, arith,
}
use guidance_for_building_a.Common.Int64.{lt64, lt64_above, lt64_ne, lt64_self}
use guidance_for_building_a.Cache.Campaigns.{CampaignCache}
use guidance_for_building_a.Cache.Budgets.{BudgetState}
use guidance_for_building_a.Auction.Indices.{contains, contains-snoc}
use guidance_for_building_a.Auction.Choose.{Winning, contend}
use guidance_for_building_a.Auction.Choose.Reserve.{price, affords, rank_one, rank}

module _ (campaigns : CampaignCache) (b : BudgetState) where
  -- The winners among the campaigns seen: those of the highest MaxCPM, which is not negative.
  pub record IsBest (seen : List ℕ) (w : Winning) : Type 0 where
    pub winners :
        (i : ℕ)
        → contains i w.winning_auctions
          ≡ (contains i seen && (affords campaigns b i && (price campaigns i == w.winning_cpm)))
    pub highest :
        (i : ℕ)
        → contains i seen ≡ true
        → affords campaigns b i ≡ true
        → lt64 w.winning_cpm (price campaigns i) ≡ false
    pub nonneg : lt64 w.winning_cpm 0 ≡ false
    pub reached : (w.winning_cpm ≡ 0) ⊎ (w.winning_auctions ≢ [])

  -- A campaign is the one just seen, or as before.
  just_seen :
      (seen : List ℕ) (i j : ℕ)
      → (i ≡ j) × (contains j (seen ++ i ∷ []) ≡ true)
        ⊎ (i == j ≡ false) × (contains j (seen ++ i ∷ []) ≡ contains j seen)
  just_seen seen i j = elim (Bool-cases (i == j)) [
    | inl e ↦ inl ((==_iff i j).0 e, ground (arith, contains-snoc j seen i))
    | inr e ↦ inr (e, ground (arith, contains-snoc j seen i))
  ]

  snoc_ne : (xs : List ℕ) (i : ℕ) → xs ++ i ∷ [] ≢ []
  snoc_ne [] i e = cc e
  snoc_ne (x ∷ xs) i e = cc e

  record_high :
      (seen : List ℕ) (w : Winning) (i : ℕ)
      → IsBest seen w
      → affords campaigns b i ≡ true
      → lt64 w.winning_cpm (price campaigns i) ≡ true
      → IsBest
          (seen ++ i ∷ [])
          (record { winning_cpm = price campaigns i; winning_auctions = i ∷ [] })
  unfolding contains
  record_high seen w i h takes more = record {
    winners = λ j. elim (just_seen seen i j) [
      | inl (same, m) ↦ rw (m, ← same, ==_self i, takes, ==_self (price campaigns i)) refl
      | inr (e, m) ↦ elim (Bool-cases (contains j seen && affords campaigns b j)) [
        | inl both ↦
            let low = h.highest j (ground arith) (ground arith) in
            let ne = lt64_ne w.winning_cpm (price campaigns i) (price campaigns j) more low in
            rw (m, e, ne) (ground arith)
        | inr neither ↦ ground arith
      ]
    ];
    highest = λ j m a. elim (just_seen seen i j) [
      | inl (same, _) ↦ rw (← same) (lt64_self (price campaigns i))
      | inr (_, m') ↦ lt64_above w.winning_cpm _ _ more (h.highest j (sym m' ∙ m) a)
    ];
    nonneg = lt64_above w.winning_cpm _ 0 more h.nonneg;
    reached = inr (λ e. cc e);
  }

  tie :
      (seen : List ℕ) (w : Winning) (i : ℕ)
      → IsBest seen w
      → affords campaigns b i ≡ true
      → (price campaigns i == w.winning_cpm) ≡ true
      → IsBest (seen ++ i ∷ []) (record w { winning_auctions = w.winning_auctions ++ i ∷ [] })
  tie seen w i h takes ties = record {
    winners = λ j. elim (just_seen seen i j) [
      | inl (same, m) ↦
          rw (m, contains-snoc j w.winning_auctions i, ← same, ==_self i, takes, ties)
            (ground arith)
      | inr (e, m) ↦ rw (m, contains-snoc j w.winning_auctions i, e, h.winners j) (ground arith)
    ];
    highest = λ j m a. elim (just_seen seen i j) [
      | inl (same, _) ↦
          rw (← same, (==_iff (price campaigns i) w.winning_cpm).0 ties) (lt64_self w.winning_cpm)
      | inr (_, m') ↦ h.highest j (sym m' ∙ m) a
    ];
    nonneg = h.nonneg;
    reached = inr (snoc_ne w.winning_auctions i);
  }

  pass :
      (seen : List ℕ) (w : Winning) (i : ℕ)
      → IsBest seen w
      → (affords campaigns b i ≡ true → (price campaigns i == w.winning_cpm) ≡ false)
      → (affords campaigns b i ≡ true → lt64 w.winning_cpm (price campaigns i) ≡ false)
      → IsBest (seen ++ i ∷ []) w
  pass seen w i h apart low = record {
    winners = λ j. elim (just_seen seen i j) [
      | inl (same, m) ↦
          rw (m, h.winners j, ← same)
            (elim (Bool-cases (affords campaigns b i)) [
              | inl takes ↦ rw (takes, apart takes) (ground arith)
              | inr skips ↦ rw skips (ground arith)
            ])
      | inr (e, m) ↦ rw (m, h.winners j) refl
    ];
    highest = λ j m a. elim (just_seen seen i j) [
      | inl (same, _) ↦ rw (← same) (low (rw same a))
      | inr (_, m') ↦ h.highest j (sym m' ∙ m) a
    ];
    nonneg = h.nonneg;
    reached = h.reached;
  }

  rank_one-IsBest :
      (seen : List ℕ) (w : Winning) (i : ℕ)
      → IsBest seen w
      → IsBest (seen ++ i ∷ []) (rank_one campaigns b w i)
  unfolding rank_one contend
  rank_one-IsBest seen w i h = elim (Bool-cases (affords campaigns b i)) [
    | inr skip ↦ rw skip (pass seen w i h (λ t. cc (t, skip)) (λ t. cc (t, skip)))
    | inl takes ↦ rw takes (elim (Bool-cases (lt64 w.winning_cpm (price campaigns i))) [
      | inl more ↦ rw (more, ==_self (price campaigns i)) (record_high seen w i h takes more)
      | inr less ↦ rw less (elim (Bool-cases (price campaigns i == w.winning_cpm)) [
        | inl ties ↦ rw ties (tie seen w i h takes ties)
        | inr loses ↦ rw loses (pass seen w i h (λ t. loses) (λ t. less))
      ])
    ])
  ]

  pub rank-IsBest :
      (is seen : List ℕ) (w : Winning) → IsBest seen w → IsBest (seen ++ is) (rank campaigns b w is)
  unfolding rank
  rank-IsBest [] seen w h = rw (append-nil seen) h
  rank-IsBest (i ∷ is) seen w h =
      rw (← append_assoc seen (i ∷ []) is)
        (rank-IsBest is (seen ++ i ∷ []) _ (rank_one-IsBest seen w i h))
