-- ===== src/Auction/Concurrent/Placed.antt =====
-- Which reservations a goroutine in `chooseCampaign` has, at each point of its loops.
use guidance_for_building_a.Common.{
  ℕ, ◌≡◌, ◌⊎◌, refl, ap, sym, ◌∙◌, subst, List, [], ◌∷◌, ◌++◌, append_assoc, append-nil, true,
  false, Option, none, some, if◌then◌else◌, All, All-append, ◌==◌, ==_iff, Bool-cases, inl, inr,
  arith,
}
use guidance_for_building_a.Api.{Campaign}
use guidance_for_building_a.Cache.Campaigns
use guidance_for_building_a.Cache.Campaigns.{CampaignCache}
use guidance_for_building_a.Cache.Budgets.{BudgetState}
use guidance_for_building_a.Auction.Indices.{
  contains, Distinct, Distinct-snoc, contains-append, contains-snoc, contains-get_elem?,
}
use guidance_for_building_a.Auction.Choose.{Winning, contend, is_winner}
use guidance_for_building_a.Auction.Concurrent.{Hold}
use guidance_for_building_a.Auction.Concurrent.Threads.{
  Position, reserving, freeing, Thread, Move, reserve_one, select_none, select_one, free_one,
  keep_one, new_thread,
}

unfoldable pub indices : List Hold → List ℕ
indices [] = []
indices (h ∷ hs) = h.campaign_index ∷ indices hs

-- The budget of campaign `i` was left.
abbrev pub Left : ℕ → List Hold → Type 0
Left i holds = All (λ h. (h.campaign_index == i) ≡ true → h.budget_left ≡ true) holds

abbrev pub WinnerLeft : Option ℕ → List Hold → Type 0
WinnerLeft none holds = Unit {0}
WinnerLeft (some i) holds = Left i holds

-- The reservations are those of the part of the list that the loop has behind it, or before it.
abbrev pub IsPlaced : List ℕ → Position → List Hold → Type 0
IsPlaced is (reserving w rest) holds =
    (is ≡ indices holds ++ rest)
    × ((i : ℕ)
        → contains i w.winning_auctions ≡ true
        → (contains i (indices holds) ≡ true) × Left i holds)
IsPlaced is (freeing winner rest) holds = (indices holds ≡ rest) × WinnerLeft winner holds

-- A reservation is of the campaign's MaxCPM.
pub record IsPriced (campaigns : CampaignCache) (h : Hold) : Type 0 where
  pub campaign : Campaign
  pub cached : Campaigns.get campaigns h.campaign_index ≡ some campaign
  pub price : h.campaign_cpm ≡ campaign.max_cpm

pub record IsThread (campaigns : CampaignCache) (t : Thread) : Type 0 where
  pub distinct : Distinct t.campaign_indices
  pub apart : Distinct (indices t.holds)
  pub priced : All (IsPriced campaigns) t.holds
  pub placed : IsPlaced t.campaign_indices t.position t.holds

pub indices_snoc :
    (holds : List Hold) (h : Hold)
    → indices (holds ++ h ∷ []) ≡ indices holds ++ h.campaign_index ∷ []
unfolding indices
indices_snoc [] h = refl
indices_snoc (x ∷ xs) h = ap (◌∷◌ x.campaign_index) (indices_snoc xs h)

contend-contains :
    (w : Winning) (i v j : ℕ)
    → contains j (contend w i v).winning_auctions ≡ true
    → ((i == j) ≡ true) ⊎ (contains j w.winning_auctions ≡ true)
unfolding contend contains
contend-contains w i v j h = elim (Bool-cases (i == j)) [
  | inl e ↦ inl e
  | inr ne ↦ inr (ground (arith, h, contains-snoc j w.winning_auctions i))
]

-- An index that comes later has no reservation yet.
Distinct-fresh :
    (xs : List ℕ) (i : ℕ) (rest : List ℕ) → Distinct (xs ++ i ∷ rest) → contains i xs ≡ false
unfolding contains
Distinct-fresh [] i rest d = refl
Distinct-fresh (x ∷ xs) i rest d =
    ground (arith, Distinct-fresh xs i rest d.1, d.0, contains-append x xs (i ∷ rest))

Distinct-last :
    (xs : List ℕ) (i : ℕ) {ys : List ℕ}
    → ys ≡ xs ++ i ∷ []
    → contains i xs ≡ false
    → Distinct xs
    → Distinct ys
Distinct-last xs i e fresh d = subst Distinct (sym e) (Distinct-snoc xs i d fresh)

-- Where `i` has no reservation, they all are of others.
fresh-Left : (i : ℕ) (holds : List Hold) → contains i (indices holds) ≡ false → Left i holds
unfolding contains indices
fresh-Left i [] h = tt
fresh-Left i (x ∷ xs) h = (λ e. ground (arith, h, e), fresh-Left i xs (ground (arith, h)))

WinnerLeft-tail :
    (o : Option ℕ) (h : Hold) (holds : List Hold) → WinnerLeft o (h ∷ holds) → WinnerLeft o holds
WinnerLeft-tail none h holds l = tt
WinnerLeft-tail (some j) h holds l = l.1

pub kept-Left :
    (winner : Option ℕ) (i : ℕ) (h : Hold) (holds : List Hold)
    → is_winner winner i ≡ true
    → h.campaign_index ≡ i
    → WinnerLeft winner (h ∷ holds)
    → h.budget_left ≡ true
kept-Left none i h holds e same l = cc e
kept-Left (some k) i h holds e same l =
    l.0 ((==_iff h.campaign_index k).1 (same ∙ (==_iff i k).0 e))

module _ (campaigns : CampaignCache) where
  pub start-IsThread : (is : List ℕ) → Distinct is → IsThread campaigns (new_thread is)
  unfolding indices contains
  start-IsThread is d = record {
    distinct = d;
    apart = tt;
    priced = tt;
    placed = (refl, λ i h. cc h);
  }

  winners-Left :
      (is rest : List ℕ) (w : Winning) (holds : List Hold) (h : Hold)
      → Distinct is
      → IsPlaced is (reserving w (h.campaign_index ∷ rest)) holds
      → (i : ℕ)
      → contains i
          (if h.budget_left then contend w h.campaign_index h.campaign_cpm else w).winning_auctions
        ≡ true
      → (contains i (indices (holds ++ h ∷ [])) ≡ true) × Left i (holds ++ h ∷ [])
  winners-Left is rest w holds h d (split, old) i won =
      let fresh : contains h.campaign_index (indices holds) ≡ false =
        Distinct-fresh (indices holds) h.campaign_index rest (subst Distinct split d) in
      let fresh_at : (h.campaign_index == i) ≡ true → contains i (indices holds) ≡ false = λ same.
        subst (λ k. contains k (indices holds) ≡ false) ((==_iff h.campaign_index i).0 same)
          fresh in
      let member = contains-snoc i (indices holds) h.campaign_index in
      let earlier : contains i w.winning_auctions ≡ true
          → (contains i (indices (holds ++ h ∷ [])) ≡ true) × Left i (holds ++ h ∷ []) =
        λ e.
          let (was, left) = old i e in
          (
            rw (indices_snoc holds h, member, was) refl,
            All-append (λ k. (k.campaign_index == i) ≡ true → k.budget_left ≡ true) holds (h ∷ [])
                left (λ same. cc (fresh_at same, was), tt),
          ) in
      elim (Bool-cases h.budget_left) [
        | inr none_left ↦ earlier (rw none_left at won)
        | inl left ↦ elim (contend-contains w h.campaign_index h.campaign_cpm i (rw left at won)) [
          | inr e ↦ earlier e
          | inl same ↦ (
            rw (indices_snoc holds h, member, same) (ground arith),
            All-append (λ k. (k.campaign_index == i) ≡ true → k.budget_left ≡ true) holds (h ∷ [])
                (fresh-Left i holds (fresh_at same)) (λ _. left, tt),
          )
        ]
      ]

  pub Move-IsThread :
      {b b' : BudgetState} {t t' : Thread} {kept : List Hold}
      → Move campaigns b t b' t' kept
      → IsThread campaigns t
      → IsThread campaigns t'
  unfolding indices
  Move-IsThread (reserve_one b is w rest holds campaign h b' cached cpm done) v = record {
    distinct = v.distinct;
    apart =
        Distinct-last (indices holds) h.campaign_index (indices_snoc holds h)
          (Distinct-fresh (indices holds) h.campaign_index rest
            (subst Distinct v.placed.0 v.distinct))
          v.apart;
    priced =
        All-append (IsPriced campaigns) holds (h ∷ []) v.priced
          (record { campaign = campaign; cached = cached; price = cpm }, tt);
    placed = (
      v.placed.0
          ∙ sym (append_assoc (indices holds) (h.campaign_index ∷ []) rest)
          ∙ ap (λ l. l ++ rest) (sym (indices_snoc holds h)),
      winners-Left is rest w holds h v.distinct v.placed,
    );
  }
  Move-IsThread (select_none b is w holds none_left) v = record {
    distinct = v.distinct;
    apart = v.apart;
    priced = v.priced;
    placed = (sym (v.placed.0 ∙ append-nil (indices holds)), tt);
  }
  Move-IsThread (select_one b is w holds k winner chosen) v = record {
    distinct = v.distinct;
    apart = v.apart;
    priced = v.priced;
    placed = (
      sym (v.placed.0 ∙ append-nil (indices holds)),
      (v.placed.1 winner (contains-get_elem? w.winning_auctions k chosen)).1,
    );
  }
  Move-IsThread (free_one b is winner i rest h holds campaign b' lost cached done) v = record {
    distinct = v.distinct;
    apart = v.apart.1;
    priced = v.priced.1;
    placed = (cc v.placed.0, WinnerLeft-tail winner h holds v.placed.1);
  }
  Move-IsThread (keep_one b is winner i rest h holds won) v = record {
    distinct = v.distinct;
    apart = v.apart.1;
    priced = v.priced.1;
    placed = (cc v.placed.0, WinnerLeft-tail winner h holds v.placed.1);
  }
