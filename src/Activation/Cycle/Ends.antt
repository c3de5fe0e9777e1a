-- ===== src/Activation/Cycle/Ends.antt =====
-- A scheduler cycle comes to its end: each page that it reads leaves fewer campaigns to try.
use ai_email_broadcast_hw.Base.{
  ℕ, zero, suc, ◌+◌, ◌-◌, ◌≤◌, ◌<◌, ◌≡◌, refl, ◌∙◌, ap, inl, inr, true, false, not, ◌&&◌, ◌||◌,
  Option, none, some, List, [], ◌∷◌, map, arith, ltb, ◌==◌, All, All-mono, All-take, Bool-cases,
  length, select, mem_id, is_some, if_both, if_cases, subst, length-map, count_where,
}
use ai_email_broadcast_hw.Base.Sort.{All-sort}
use ai_email_broadcast_hw.Store.{Store, Campaign}
use ai_email_broadcast_hw.Audience.{Runtime}
use ai_email_broadcast_hw.Activation.{from_scheduled, is_ready}
use ai_email_broadcast_hw.Activation.Failure.{Failure}
use ai_email_broadcast_hw.Activation.Cycle.Ids.{campaign_ids, ids-attempt}
use ai_email_broadcast_hw.Activation.Cycle.{
  World, Cycle, started, due_page, activate_one, after_read, activate_page, activate_rounds,
  activate_due_campaigns, sooner,
}

-- The campaigns that are still to be tried.
abbrev pub untried : List ℕ → List ℕ → ℕ
untried tried is = count_where (λ i. not (mem_id i tried)) is

untried_mono : (i : ℕ) (tried is : List ℕ) → untried (i ∷ tried) is ≤ untried tried is
untried_mono i tried [] = omega arith
untried_mono i tried (j ∷ is) = ground (arith, untried_mono i tried is)

untried_falls :
    (i : ℕ) (tried is : List ℕ)
    → mem_id i is ≡ true
    → mem_id i tried ≡ false
    → untried (i ∷ tried) is < untried tried is
untried_falls i tried [] h k = absurd (ground arith)
untried_falls i tried (j ∷ is) h k = elim (Bool-cases (i == j)) [
  | inl e ↦ ground (arith, untried_mono i tried is)
  | inr e ↦ ground (arith, untried_falls i tried is)
]

untried_all : (is : List ℕ) → untried [] is ≡ length is
untried_all [] = refl
untried_all (i ∷ is) = ap suc (untried_all is)

-- Other processes neither add nor remove campaigns, and time does not run backwards between two looks
-- at the deadline.
pub record Steady (w : World) : Type 0 where
  pub page_ids : (n : ℕ) (s : Store) → campaign_ids ((w.page_moment n).meanwhile s) ≡ campaign_ids s
  pub try_ids : (n : ℕ) (s : Store) → campaign_ids ((w.try_moment n).meanwhile s) ≡ campaign_ids s
  pub still_late : (n : ℕ) → (w.page_moment n).late ≡ false → (w.try_moment n).late ≡ false

ids_present :
    (cs : List Campaign) → All (λ c. mem_id c.id (map (λ (d : Campaign). d.id) cs) ≡ true) cs
ids_present [] = tt
ids_present (c ∷ cs) = (ground arith, All-mono _ _ cs (λ d k. ground (arith, k)) (ids_present cs))

-- A campaign of these ids that is still to be tried.
abbrev Fresh : List ℕ → List ℕ → Campaign → Type 0
Fresh tried is c = (mem_id c.id tried ≡ false) × (mem_id c.id is ≡ true)

select-Fresh :
    (clock : ℕ) (tried is : List ℕ) (cs : List Campaign)
    → All (λ c. mem_id c.id is ≡ true) cs
    → All
        (Fresh tried is)
        (select (λ c. is_ready from_scheduled clock c && not (mem_id c.id tried)) cs)
select-Fresh clock tried is [] h = tt
select-Fresh clock tried is (c ∷ cs) (h, hs) =
    let rest = select-Fresh clock tried is cs hs in
    if_cases (All (Fresh tried is)) (is_ready from_scheduled clock c && not (mem_id c.id tried))
      (λ e. ((ground arith, h), rest)) (λ e. rest)

due_page-Fresh :
    (clock : ℕ) (tried : List ℕ) (limit : ℕ) (s : Store)
    → All (Fresh tried (campaign_ids s)) (due_page clock tried limit s)
unfolding due_page
due_page-Fresh clock tried limit s =
    All-take _ limit _
      (All-sort sooner _ _ (select-Fresh clock tried _ s.campaigns (ids_present s.campaigns)))

after_read-ends :
    (throws : Option Failure) (page : List Campaign) (k seen : Cycle) (rest : Option Cycle)
    → ((c : Campaign) (cs : List Campaign) → page ≡ c ∷ cs → is_some rest ≡ true)
    → is_some (after_read throws page k seen rest) ≡ true
unfolding after_read
after_read-ends (some e) page k seen rest h = refl
after_read-ends none [] k seen rest h = refl
after_read-ends none (c ∷ cs) k seen rest h = h c cs refl

module _ (rt : Runtime) (w : World) (steady : Steady w) (is : List ℕ) where
  activate_one-ids :
      (c : Campaign) (k : Cycle)
      → campaign_ids k.store ≡ is
      → campaign_ids (activate_one rt (w.try_moment (length k.tried)) c k).store ≡ is
  unfolding activate_one
  activate_one-ids c k e =
      ids-attempt rt (w.try_moment (length k.tried)) c k.result _
      ∙ (steady.try_ids (length k.tried) k.store ∙ e)

  -- A page leaves the ids alone, and no more campaigns to try than before.
  activate_page-ids :
      (cs : List Campaign) (k : Cycle)
      → campaign_ids k.store ≡ is
      → let k' = activate_page rt w cs k in
        (campaign_ids k'.store ≡ is) × (untried k'.tried is ≤ untried k.tried is)
  unfolding activate_page activate_one
  activate_page-ids [] k e = (e, omega arith)
  activate_page-ids (c ∷ cs) k e =
      let m = w.try_moment (length k.tried) in
      let k1 = activate_one rt m c k in
      let one = activate_one-ids c k e in
      let rest = activate_page-ids cs k1 one in
      let less = untried_mono c.id k.tried is in
      let P =
        λ (k' : Cycle). (campaign_ids k'.store ≡ is) × (untried k'.tried is ≤ untried k.tried is) in
      if_both P m.late (e, omega arith)
        (if_both P k1.result.connection_lost (one, less) (rest.0, omega arith))

  -- A page that is read in time has a campaign that is tried.
  activate_page-falls :
      (c : Campaign) (cs : List Campaign) (k : Cycle)
      → campaign_ids k.store ≡ is
      → Fresh k.tried is c
      → (w.try_moment (length k.tried)).late ≡ false
      → untried (activate_page rt w (c ∷ cs) k).tried is < untried k.tried is
  unfolding activate_page activate_one
  activate_page-falls c cs k e f l =
      let m = w.try_moment (length k.tried) in
      let k1 = activate_one rt m c k in
      let rest = activate_page-ids cs k1 (activate_one-ids c k e) in
      let less = untried_falls c.id k.tried is f.1 f.0 in
      let P = λ (k' : Cycle). untried k'.tried is < untried k.tried is in
      if_cases P m.late (λ t. absurd (ground arith))
        (λ t. if_both P k1.result.connection_lost less (omega arith))

  page_falls :
      (page : List Campaign) (c : Campaign) (cs : List Campaign) (k : Cycle)
      → page ≡ c ∷ cs
      → campaign_ids k.store ≡ is
      → All (Fresh k.tried is) page
      → (w.try_moment (length k.tried)).late ≡ false
      → untried (activate_page rt w page k).tried is < untried k.tried is
  page_falls [] c cs k e i f l = absurd (cc)
  page_falls (d ∷ ds) c cs k e i f l = activate_page-falls d ds k i f.0 l

  activate_rounds-ends :
      (limit fuel : ℕ) (k : Cycle)
      → campaign_ids k.store ≡ is
      → untried k.tried is < fuel
      → is_some (activate_rounds rt w limit fuel k) ≡ true
  unfolding activate_rounds
  activate_rounds-ends limit zero k e h = absurd (omega arith)
  activate_rounds-ends limit (suc fuel) k e h =
      let m = w.page_moment (length k.tried) in
      let s = m.meanwhile k.store in
      let page = due_page m.clock k.tried (limit - started k.result) s in
      let seen = record k {
        result = record k.result { due = k.result.due + length page };
        store = s;
      } in
      let same : campaign_ids s ≡ is = steady.page_ids (length k.tried) k.store ∙ e in
      let fresh : All (Fresh k.tried is) page =
        subst (λ x. All (Fresh k.tried x) page) same
          (due_page-Fresh m.clock k.tried (limit - started k.result) s) in
      let later = λ (c : Campaign) (cs : List Campaign) (p : page ≡ c ∷ cs) (t : m.late ≡ false).
        activate_rounds-ends limit fuel (activate_page rt w page seen)
          (activate_page-ids page seen same).0
          (omega (
            arith,
            page_falls page c cs seen p same fresh (steady.still_late (length k.tried) t),
          )) in
      let P = λ (o : Option Cycle). is_some o ≡ true in
      if_both P (not (ltb (started k.result) limit) || k.result.connection_lost) refl (
        if_cases P m.late (λ t. refl)
          (λ t.
            after_read-ends m.throws page (record k { store = s }) seen _
              (λ c cs p. later c cs p t)))

-- A scheduler cycle ends: where other processes neither add nor remove campaigns meanwhile and time
-- does not run backwards, fuel for one round a campaign and one more is enough, whatever is thrown.
pub activate_due_campaigns-ends :
    (rt : Runtime) (w : World) (limit fuel : ℕ) (s : Store)
    → Steady w
    → length s.campaigns < fuel
    → is_some (activate_due_campaigns rt w limit fuel s) ≡ true
unfolding activate_due_campaigns
activate_due_campaigns-ends rt w limit fuel s steady h =
    activate_rounds-ends rt w steady (campaign_ids s) limit fuel _ refl (
      omega (
        arith,
        untried_all (campaign_ids s),
        length-map {0, 0} (λ (c : Campaign). c.id) s.campaigns,
      ))
