-- ===== src/Lbs/Client/Reload.antt =====
-- uni_lbs_client.cpp: what a reload of the addresses keeps, makes and drops.
use turnserver_v.Lbs.Client.Rounds.{contains, ServedIn, WaitsIn, all_rounds}
use turnserver_v.Base.{
  ℕ, ◌≤◌, ◌≡◌, refl, true, false, List, [], none, some, ◌⊎◌, inl, inr, if◌then◌else◌, Bool-cases,
  arith,
}
use turnserver_v.Lbs.Client.Maps.{find}
use turnserver_v.Address.Ipv4.{NewSockAddress4}
use turnserver_v.Lbs.Client.{
  Endpoint, Connections, LbsClient, Loop, reload_all, reload_lbs_addresses,
}

-- No pointer of the map is null.
pub record IsNonNull (m : Connections) : Type 0 where
  pub non_null : (ip : ℕ) → (find ip m ≡ none) ⊎ ((k : Endpoint) × (find ip m ≡ some (some k)))

-- The endpoint that was there before, or a new one at an address with the ip.
abbrev pub KeptOrNew : ℕ → LbsClient → Connections → Type 0
KeptOrNew ip c m =
    ((k : Endpoint) × (find ip c.connections ≡ some (some k)) × (find ip m ≡ some (some k)))
    ⊎ ((k : Endpoint) × (find ip c.connections ≡ none)
        × (find ip m ≡ some (some k))
        × (k.address.ip ≡ ip)
        × (c.fresh ≤ k.id))

-- The entry of `ip` after a reload: there is none if no address has the ip; the endpoint that was
-- there before if there was one; and a new endpoint at an address with that ip otherwise.
pub record IsReloaded (ip : ℕ) (addrs : List NewSockAddress4) (c c' : LbsClient) : Type 0 where
  pub entry :
      ((contains ip addrs ≡ false) × (find ip c'.connections ≡ none))
      ⊎ ((contains ip addrs ≡ true) × KeptOrNew ip c c'.connections)

-- A reload of a map without null pointers drops the ips that no address has, keeps the endpoint of
-- an ip that it has already, and makes an endpoint, with a number that none had before, for a new ip.
pub reload_lbs_addresses-IsReloaded :
    (ip : ℕ) (addrs : List NewSockAddress4) (c : LbsClient)
    → IsNonNull c.connections
    → IsReloaded ip addrs c (reload_lbs_addresses addrs c)
unfolding reload_lbs_addresses
reload_lbs_addresses-IsReloaded ip addrs c n = record {
  entry = elim (Bool-cases (contains ip addrs)) [
    | inr out ↦ inl (out, (rw out at ended).1)
    | inl within ↦ inr (within, found (rw within at ended))
  ];
}
  where
    before : Loop
    before = record { old = c.connections; next = []; client = c }

    ended :
        if contains ip addrs
        then ServedIn ip c.fresh (find ip c.connections) (reload_all addrs before)
        else WaitsIn ip (find ip c.connections) (reload_all addrs before)
    ended =
        (all_rounds ip c.fresh (find ip c.connections) addrs before (omega arith) (n.non_null ip)).0
          (refl, unfold find in refl)

    found :
        ServedIn ip c.fresh (find ip c.connections) (reload_all addrs before)
        → KeptOrNew ip c (reload_all addrs before).next
    found (inl (k, was, emptied, is)) = inl (k, was, is)
    found (inr (k, was, absent, is, new)) = inr (k, was, is, new.0, new.1)

-- A reload leaves no null pointer where there was none, so that every endpoint can be told of a
-- channel.
pub reload_lbs_addresses-IsNonNull :
    (addrs : List NewSockAddress4) (c : LbsClient)
    → IsNonNull c.connections
    → IsNonNull (reload_lbs_addresses addrs c).connections
reload_lbs_addresses-IsNonNull addrs c n = record {
  non_null = λ ip. shape ip (reload_lbs_addresses-IsReloaded ip addrs c n).entry;
}
  where
    shape :
        (ip : ℕ)
        → ((contains ip addrs ≡ false)
            × (find ip (reload_lbs_addresses addrs c).connections ≡ none))
          ⊎ ((contains ip addrs ≡ true) × KeptOrNew ip c (reload_lbs_addresses addrs c).connections)
        → (find ip (reload_lbs_addresses addrs c).connections ≡ none)
          ⊎ ((k : Endpoint) × (find ip (reload_lbs_addresses addrs c).connections ≡ some (some k)))
    shape ip (inl (out, absent)) = inl absent
    shape ip (inr (within, inl (k, was, is))) = inr (k, is)
    shape ip (inr (within, inr (k, was, is, ip_same, new))) = inr (k, is)
