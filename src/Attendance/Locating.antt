-- ===== src/Attendance/Locating.antt =====
-- Which office a point is placed against (attendance/geofence.go `locate`).
use attendance_system.Prelude.{
  subst, ℕ, suc, ◌*◌, ◌≡◌, refl, sym, ap, ◌∙◌, ◌⊎◌, inl, inr, Bool, true, false, not, ◌&&◌, ◌||◌,
  Option, none, some, List, [], ◌∷◌, arith, ltb, leb, if◌then◌else◌, Bool-cases, get_elem?, All, ℤ,
}
use attendance_system.Schedule.Rows.{OfficeLocation}
use attendance_system.Attendance.Geofence.{Distance, Best, visit, visit_all, locate}

-- A circle that holds the point comes before one that does not, then the smaller distance.
abbrev pub ahead : Bool → ℕ → Bool → ℕ → Bool
ahead within n inside d =
    (within && not inside) || ((if inside then within else not within) && leb n d)

abbrev pub holds_point : Distance → ℤ → ℤ → OfficeLocation → Bool
holds_point distance lat lng o = leb (distance lat lng o.lat o.lng) (o.radius_m * 1000)

abbrev beats : Best → Bool → ℕ → Bool
beats b inside d = elim b.nearest [ none ↦ false | some n ↦ ahead b.within n inside d ]

-- What has no distance yet holds nothing.
abbrev is_valid : Best → Bool
is_valid b = elim b.nearest [ none ↦ not b.within | some _ ↦ true ]

abbrev taken : ℕ → OfficeLocation → Best
taken d o = record { office = some o.id; within = leb d (o.radius_m * 1000); nearest = some d }

abbrev Visited : ℕ → OfficeLocation → Best → Best → Type 0
Visited d o b rest =
    ((rest ≡ b) × (beats b (leb d (o.radius_m * 1000)) d ≡ true))
    ⊎ ((rest ≡ taken d o)
        × ((inside : Bool) (e : ℕ)
            → beats b inside e ≡ true
            → ahead (leb d (o.radius_m * 1000)) d inside e ≡ true))

visit-Visited :
    (d : ℕ) (o : OfficeLocation) (b : Best) → is_valid b ≡ true → Visited d o b (visit d o b)
unfolding visit
visit-Visited d o b v = go b.nearest refl
  where
    go : (n : Option ℕ) → b.nearest ≡ n → Visited d o b (visit d o b)
    go none e = inr (ground arith, λ i k h. absurd (ground arith))
    go (some m) e =
        elim (Bool-cases (
          (leb d (o.radius_m * 1000) && not b.within)
          || ((if leb d (o.radius_m * 1000) then b.within else not b.within) && ltb d m))) [
            | inl y ↦ inr (ground arith, λ i k h. ground arith)
            | inr y ↦ inl (ground arith, ground arith)
          ]

-- An office of the list that comes before all others.
pub record Chosen (distance : Distance) (lat lng : ℤ) (offices : List OfficeLocation)
    (out : Option ℕ × Bool) : Type 0 where
  pub index : ℕ
  pub office : OfficeLocation
  pub listed : get_elem? offices index ≡ some office
  pub id_is : out.0 ≡ some office.id
  pub within_is : out.1 ≡ holds_point distance lat lng office
  pub first :
      All
        (λ (p : OfficeLocation).
          ahead
            (holds_point distance lat lng office)
            (distance lat lng office.lat office.lng)
            (holds_point distance lat lng p)
            (distance lat lng p.lat p.lng)
          ≡ true)
        offices

record Visits (distance : Distance) (lat lng : ℤ) (offices : List OfficeLocation) (b r : Best)
    : Type 0 where
  source :
      (r ≡ b)
      ⊎ ((n : ℕ) × (o : OfficeLocation) × (get_elem? offices n ≡ some o)
          × (r ≡ taken (distance lat lng o.lat o.lng) o))
  over :
      All
        (λ (p : OfficeLocation).
          beats r (holds_point distance lat lng p) (distance lat lng p.lat p.lng) ≡ true)
        offices
  over_best : (i : Bool) (e : ℕ) → beats b i e ≡ true → beats r i e ≡ true

ahead_self : (w : Bool) (n : ℕ) → ahead w n w n ≡ true
ahead_self w n = ground arith

valid_after :
    (d : ℕ) (o : OfficeLocation) (b rest : Best)
    → is_valid b ≡ true
    → Visited d o b rest
    → is_valid rest ≡ true
valid_after d o b rest v (inl h) = subst (λ c. is_valid c ≡ true) (sym (h.0)) v
valid_after d o b rest v (inr h) = subst (λ c. is_valid c ≡ true) (sym (h.0)) refl

step-Visits :
    (distance : Distance) (lat lng : ℤ) (o : OfficeLocation) (offices : List OfficeLocation)
    (b rest r : Best)
    → Visited (distance lat lng o.lat o.lng) o b rest
    → Visits distance lat lng offices rest r
    → Visits distance lat lng (o ∷ offices) b r
step-Visits distance lat lng o offices b rest r (inl h) n =
    let over_b : (i : Bool) (e : ℕ) → beats b i e ≡ true → beats r i e ≡ true =
      λ i e k. n.over_best i e (subst (λ c. beats c i e ≡ true) (sym (h.0)) k) in
    record {
      source = elim n.source [ inl e ↦ inl (e ∙ h.0) | inr (m, p, l, e) ↦ inr (suc m, p, l, e) ];
      over = (over_b (holds_point distance lat lng o) (distance lat lng o.lat o.lng) (h.1), n.over);
      over_best = over_b;
    }
step-Visits distance lat lng o offices b rest r (inr h) n =
    let d = distance lat lng o.lat o.lng in
    let over_o : (i : Bool) (e : ℕ) → beats (taken d o) i e ≡ true → beats r i e ≡ true =
      λ i e k. n.over_best i e (subst (λ c. beats c i e ≡ true) (sym (h.0)) k) in
    record {
      source = elim n.source [
        | inl e ↦ inr (0, o, refl, e ∙ h.0)
        | inr (m, p, l, e) ↦ inr (suc m, p, l, e)
      ];
      over = (
        over_o (holds_point distance lat lng o) d (ahead_self (holds_point distance lat lng o) d),
        n.over,
      );
      over_best = λ i e k. over_o i e (h.1 i e k);
    }

visit_all-Visits :
    (distance : Distance) (lat lng : ℤ) (offices : List OfficeLocation) (b : Best)
    → is_valid b ≡ true
    → Visits distance lat lng offices b (visit_all distance lat lng offices b)
unfolding visit_all
visit_all-Visits distance lat lng [] b v = record {
  source = inl refl;
  over = tt;
  over_best = λ i e k. k;
}
visit_all-Visits distance lat lng (o ∷ offices) b v =
    let d = distance lat lng o.lat o.lng in
    let t = visit-Visited d o b v in
    step-Visits distance lat lng o offices b (visit d o b)
      (visit_all distance lat lng offices (visit d o b)) t
      (visit_all-Visits distance lat lng offices (visit d o b)
        (valid_after d o b (visit d o b) v t))

abbrev nothing_yet : Best
nothing_yet = record { office = none; within = false; nearest = none }

chosen :
    (distance : Distance) (lat lng : ℤ) (o : OfficeLocation) (offices : List OfficeLocation)
    (r : Best)
    → Visits distance lat lng (o ∷ offices) nothing_yet r
    → Chosen distance lat lng (o ∷ offices) (r.office, r.within)
chosen distance lat lng o offices r v = elim v.source [
  | inl e ↦ absurd (
      ground (
        arith,
        subst (λ c. beats c (holds_point distance lat lng o) (distance lat lng o.lat o.lng) ≡ true)
            e (v.over.0),
      ))
  | inr (n, p, l, e) ↦ record {
    index = n;
    office = p;
    listed = l;
    id_is = ap (λ (b : Best). b.office) e;
    within_is = ap (λ (b : Best). b.within) e;
    first =
        subst
          (λ c.
            All
              (λ (q : OfficeLocation).
                beats c (holds_point distance lat lng q) (distance lat lng q.lat q.lng) ≡ true)
              (o ∷ offices))
          e v.over;
  }
]

-- A point is placed against no office only where there is none. Otherwise it is placed against an
-- office that comes first: one whose circle holds the point before any that does not, and among
-- those alike the nearest; the flag says whether that office's circle holds the point.
pub locate_lem :
    (distance : Distance) (offices : List OfficeLocation) (lat lng : ℤ)
    → ((offices ≡ []) × (locate distance offices lat lng ≡ (none, false)))
      ⊎ Chosen distance lat lng offices (locate distance offices lat lng)
unfolding locate visit_all
locate_lem distance [] lat lng = inl (refl, refl)
locate_lem distance (o ∷ offices) lat lng = inr (
    chosen distance lat lng o offices (visit_all distance lat lng (o ∷ offices) nothing_yet)
      (visit_all-Visits distance lat lng (o ∷ offices) nothing_yet refl))
