-- ===== src/Lbs/Client/Rounds.antt =====
-- uni_lbs_client.cpp: the rounds of the loop over the new addresses, for the entry of one ip.
use turnserver_v.Base.{
  ℕ, ◌≤◌, ◌≡◌, refl, sym, subst, ◌∙◌, Bool, true, false, List, [], ◌∷◌, Option, none, some, ◌⊎◌,
  inl, inr, ◌==◌, ==_iff, if◌then◌else◌, Bool-cases, arith,
}
use turnserver_v.Lbs.Client.Maps.{find, find-put}
use turnserver_v.Address.Ipv4.{NewSockAddress4}
use turnserver_v.Lbs.Client.{Endpoint, Loop, create, move_over, reload_one, reload_all}

abbrev pub contains : ℕ → List NewSockAddress4 → Bool
contains ip [] = false
contains ip (addr ∷ addrs) = let rest = contains ip addrs in if addr.ip == ip then true else rest

abbrev pub Entry : Type 0
Entry = Option (Option Endpoint)

-- The entry of one ip during the loop: `o` before it, `a` in the old map, `b` in the new one.
abbrev pub Waits : Entry → Entry → Entry → Type 0
Waits o a b = (a ≡ o) × (b ≡ none)

abbrev pub IsNew : ℕ → ℕ → Endpoint → Type 0
IsNew ip fresh k = (k.address.ip ≡ ip) × (fresh ≤ k.id)

abbrev pub Served : ℕ → ℕ → Entry → Entry → Entry → Type 0
Served ip fresh o a b =
    ((k : Endpoint) × (o ≡ some (some k)) × (a ≡ some none) × (b ≡ some (some k)))
    ⊎ ((k : Endpoint) × (o ≡ none) × (a ≡ none) × (b ≡ some (some k)) × IsNew ip fresh k)

-- A round for another ip leaves the entry.
other_ip :
    (ip : ℕ) (addr : NewSockAddress4) (e : Entry) (s : Loop)
    → (addr.ip == ip) ≡ false
    → (find ip (reload_one addr e s).old ≡ find ip s.old)
      × (find ip (reload_one addr e s).next ≡ find ip s.next)
unfolding reload_one create move_over
other_ip ip addr none s ne = (refl, rw (find-put, ne))
other_ip ip addr (some ptr) s ne = go (find addr.ip s.next)
  where
    go :
        (there : Option (Option Endpoint))
        → (find ip (move_over addr.ip ptr there s).old ≡ find ip s.old)
          × (find ip (move_over addr.ip ptr there s).next ≡ find ip s.next)
    go none = (rw (find-put, ne), rw (find-put, ne))
    go (some x) = (refl, refl)

-- The entry of `ip` in the state of the loop.
abbrev pub WaitsIn : ℕ → Entry → Loop → Type 0
WaitsIn ip o s = Waits o (find ip s.old) (find ip s.next)

abbrev pub ServedIn : ℕ → ℕ → Entry → Loop → Type 0
ServedIn ip fresh o s = Served ip fresh o (find ip s.old) (find ip s.next)

fresh-reload_one :
    (addr : NewSockAddress4) (e : Entry) (s : Loop)
    → s.client.fresh ≤ (reload_one addr e s).client.fresh
unfolding reload_one create move_over
fresh-reload_one addr none s = omega arith
fresh-reload_one addr (some ptr) s = go (find addr.ip s.next)
  where
    go :
        (there : Option (Option Endpoint))
        → s.client.fresh ≤ (move_over addr.ip ptr there s).client.fresh
    go none = omega arith
    go (some x) = omega arith

first_round :
    (addr : NewSockAddress4) (s : Loop) (k : Endpoint)
    → find addr.ip s.next ≡ none
    → (find addr.ip (reload_one addr (some (some k)) s).old ≡ some none)
      × (find addr.ip (reload_one addr (some (some k)) s).next ≡ some (some k))
unfolding reload_one move_over
first_round addr s k absent =
    rw (absent, find-put, (==_iff addr.ip addr.ip).1 refl)
      (refl, rw (find-put, (==_iff addr.ip addr.ip).1 refl))

second_round :
    (addr : NewSockAddress4) (s : Loop) (ptr x : Option Endpoint)
    → find addr.ip s.next ≡ some x
    → reload_one addr (some ptr) s ≡ s
unfolding reload_one move_over
second_round addr s ptr x there = rw there

new_round :
    (addr : NewSockAddress4) (fresh : ℕ) (o : Entry) (s : Loop)
    → o ≡ none
    → find addr.ip s.old ≡ none
    → fresh ≤ s.client.fresh
    → ServedIn addr.ip fresh o (reload_one addr none s)
unfolding reload_one create
new_round addr fresh o s e absent h = inr (
  record { id = s.client.fresh; address = addr },
  e,
  absent,
  rw (find-put, (==_iff addr.ip addr.ip).1 refl),
  (refl, h),
)

same_ip :
    (addr : NewSockAddress4) (fresh : ℕ) (o : Entry) (s : Loop)
    → fresh ≤ s.client.fresh
    → (o ≡ none) ⊎ ((k : Endpoint) × (o ≡ some (some k)))
    → WaitsIn addr.ip o s ⊎ ServedIn addr.ip fresh o s
    → ServedIn addr.ip fresh o (reload_one addr (find addr.ip s.old) s)
same_ip addr fresh o s h (inl none_before) (inl (a, b)) =
    rw (a ∙ none_before) (new_round addr fresh o s none_before (a ∙ none_before) h)
same_ip addr fresh o s h (inr (k, before)) (inl (a, b)) =
    let (emptied, kept) = first_round addr s k b in rw (a ∙ before) (inl (k, before, emptied, kept))
same_ip addr fresh o s h valid (inr (inl (k, before, a, b))) =
    rw a (rw (second_round addr s none (some k) b) (inl (k, before, a, b)))
same_ip addr fresh o s h valid (inr (inr (k, before, a, b, new))) =
    rw a (new_round addr fresh o s before a h)

-- A round keeps the entry of another ip, and serves that of its own.
one_round :
    (ip fresh : ℕ) (o : Entry) (addr : NewSockAddress4) (s : Loop)
    → fresh ≤ s.client.fresh
    → (o ≡ none) ⊎ ((k : Endpoint) × (o ≡ some (some k)))
    → let s' = reload_one addr (find addr.ip s.old) s in
      (WaitsIn ip o s → if addr.ip == ip then ServedIn ip fresh o s' else WaitsIn ip o s')
      × (ServedIn ip fresh o s → ServedIn ip fresh o s')
one_round ip fresh o addr s h valid = elim (Bool-cases (addr.ip == ip)) [
  | inl same ↦
      let e : addr.ip ≡ ip = (==_iff addr.ip ip).0 same in
      rw same (
        subst
          (λ i.
            (WaitsIn i o s → ServedIn i fresh o s')
            × (ServedIn i fresh o s → ServedIn i fresh o s'))
          e
          (
            λ w. same_ip addr fresh o s h valid (inl w),
            λ w. same_ip addr fresh o s h valid (inr w),
          ))
  | inr other ↦
      let (old_same, next_same) = other_ip ip addr (find addr.ip s.old) s other in
      rw other (
        λ w.
            subst (λ e. Waits o e (find ip s'.next)) (sym old_same)
              (subst (Waits o (find ip s.old)) (sym next_same) w),
        λ w.
            subst (λ e. Served ip fresh o e (find ip s'.next)) (sym old_same)
              (subst (Served ip fresh o (find ip s.old)) (sym next_same) w),
      )
]
  where
    s' : Loop
    s' = reload_one addr (find addr.ip s.old) s

then_rest :
    (S W S' W' : Type 0) (first rest : Bool)
    → (if first then S else W)
    → (W → if rest then S' else W')
    → (S → S')
    → if (if first then true else rest) then S' else W'
then_rest S W S' W' true rest now later keep = keep now
then_rest S W S' W' false rest now later keep = later now

pub all_rounds :
    (ip fresh : ℕ) (o : Entry) (addrs : List NewSockAddress4) (s : Loop)
    → fresh ≤ s.client.fresh
    → (o ≡ none) ⊎ ((k : Endpoint) × (o ≡ some (some k)))
    → (WaitsIn ip o s
        → if contains ip addrs
          then ServedIn ip fresh o (reload_all addrs s)
          else WaitsIn ip o (reload_all addrs s))
      × (ServedIn ip fresh o s → ServedIn ip fresh o (reload_all addrs s))
unfolding reload_all
all_rounds ip fresh o [] s h valid = (λ w. w, λ w. w)
all_rounds ip fresh o (addr ∷ addrs) s h valid =
    let e = find addr.ip s.old in
    let s' = reload_one addr e s in
    let (waiting, served) = one_round ip fresh o addr s h valid in
    let (waiting', served') =
      all_rounds ip fresh o addrs s' (omega (arith, h, fresh-reload_one addr e s)) valid in
    (
      λ w.
          then_rest (ServedIn ip fresh o s') (WaitsIn ip o s')
            (ServedIn ip fresh o (reload_all addrs s')) (WaitsIn ip o (reload_all addrs s'))
            (addr.ip == ip) (contains ip addrs) (waiting w) waiting' served',
      λ w. served' (served w),
    )
