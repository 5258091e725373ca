-- ===== src/Server/Joining.antt =====
-- turnserver/turnserver_main.cc: how UniLbsWorker joins the unified LBS, over Lbs/Client.
pub mod Load
use turnserver_v.Base.{
  ℕ, ◌≡◌, ◌≢◌, refl, sym, ◌∙◌, true, false, List, [], ◌∷◌, Option, none, some, ◌==◌, ==_iff,
  Bool-cases, inl, inr, ◌⊎◌, arith,
}
use turnserver_v.Wire.Packer.{u32}
use turnserver_v.Address.Ipv4.{NewSockAddress4}
use turnserver_v.Lbs.Client.{
  Endpoint, LbsClient, Loop, create, move_over, reload_one, reload_all, init,
  set_service_information, update_lbs_addresses, reload_lbs_addresses, reload_lbs_hosts, with_port,
}
use turnserver_v.Lbs.Client.Maps.{find}
use turnserver_v.Lbs.Client.Rounds.{contains}
use turnserver_v.Lbs.Client.Reload.{
  IsNonNull, KeptOrNew, reload_lbs_addresses-IsReloaded, reload_lbs_addresses-IsNonNull,
}

abbrev lbs_edge_service_port : ℕ
lbs_edge_service_port = 3100

-- AddToUniLbs: what inet_aton makes of the LBS's address, the clock in milliseconds, the port of the
-- turn server, and what ResolveHost gives for the empty host.
unfoldable pub add_to_uni_lbs : Option ℕ → ℕ → ℕ → List ℕ → LbsClient
add_to_uni_lbs none ms port ips = init lbs_edge_service_port
add_to_uni_lbs (some ip) ms port ips =
    update_lbs_addresses (with_port lbs_edge_service_port ip ∷ [])
      (set_service_information (u32 ms) port ips (init lbs_edge_service_port))

-- Every endpoint of the map stands under its own ip.
abbrev HasOwnIps : LbsClient → Type 0
HasOwnIps c = (ip : ℕ) (k : Endpoint) → find ip c.connections ≡ some (some k) → k.address.ip ≡ ip

reload_lbs_addresses-HasOwnIps :
    (addrs : List NewSockAddress4) (c : LbsClient)
    → IsNonNull c.connections
    → HasOwnIps c
    → HasOwnIps (reload_lbs_addresses addrs c)
reload_lbs_addresses-HasOwnIps addrs c n own ip k at =
    shape (reload_lbs_addresses-IsReloaded ip addrs c n).entry
  where
    shape :
        ((contains ip addrs ≡ false) × (find ip (reload_lbs_addresses addrs c).connections ≡ none))
          ⊎ ((contains ip addrs ≡ true) × KeptOrNew ip c (reload_lbs_addresses addrs c).connections)
        → k.address.ip ≡ ip
    shape (inl (out, absent)) = absurd (ground arith)
    shape (inr (within, inl (l, was, is))) = own ip k (was ∙ sym is ∙ at)
    shape (inr (within, inr (l, was, is, same, new))) = cc

init-IsNonNull : IsNonNull (init lbs_edge_service_port).connections
unfolding init find
init-IsNonNull = record { non_null = λ ip. inl refl }

init-HasOwnIps : HasOwnIps (init lbs_edge_service_port)
unfolding init find
init-HasOwnIps ip k at = absurd (cc)

-- What the client keeps before and after a reload.
record IsSound (c : LbsClient) : Type 0 where
  non_null : IsNonNull c.connections
  own_ips : HasOwnIps c

reload_lbs_addresses-IsSound :
    (addrs : List NewSockAddress4) (c : LbsClient)
    → IsSound c
    → IsSound (reload_lbs_addresses addrs c)
reload_lbs_addresses-IsSound addrs c h = record {
  non_null = reload_lbs_addresses-IsNonNull addrs c h.non_null;
  own_ips = reload_lbs_addresses-HasOwnIps addrs c h.non_null h.own_ips;
}

set_service_information-IsSound :
    (service_id port : ℕ) (ips : List ℕ) (c : LbsClient)
    → IsSound c
    → IsSound (set_service_information service_id port ips c)
unfolding set_service_information reload_lbs_hosts
set_service_information-IsSound service_id port [] c h =
    let r =
      reload_lbs_addresses-IsSound _ (record c { service_id = service_id; service_port = port })
        (record { non_null = h.non_null; own_ips = h.own_ips }) in
    record { non_null = r.non_null; own_ips = r.own_ips }
set_service_information-IsSound service_id port (ip ∷ ips) c h =
    let r =
      reload_lbs_addresses-IsSound _ (record c { service_id = service_id; service_port = port })
        (record { non_null = h.non_null; own_ips = h.own_ips }) in
    record { non_null = r.non_null; own_ips = r.own_ips }

-- A round of the reload leaves the service and the timer.
abbrev Leaves : LbsClient → LbsClient → Type 0
Leaves c c' = (c'.service_id ≡ c.service_id) × (c'.timer ≡ c.timer)

move_over-Leaves :
    (addr : NewSockAddress4) (ptr : Option Endpoint) (new : Option (Option Endpoint)) (s : Loop)
    → Leaves s.client (move_over addr.ip ptr new s).client
unfolding move_over
move_over-Leaves addr ptr none s = (refl, refl)
move_over-Leaves addr ptr (some there) s = (refl, refl)

reload_one-Leaves :
    (addr : NewSockAddress4) (there : Option (Option Endpoint)) (s : Loop)
    → Leaves s.client (reload_one addr there s).client
unfolding reload_one create
reload_one-Leaves addr none s = (refl, refl)
reload_one-Leaves addr (some ptr) s = move_over-Leaves addr ptr (find addr.ip s.next) s

reload_all-Leaves :
    (addrs : List NewSockAddress4) (s : Loop) → Leaves s.client (reload_all addrs s).client
unfolding reload_all
reload_all-Leaves [] s = (refl, refl)
reload_all-Leaves (addr ∷ addrs) s =
    let one = reload_one-Leaves addr (find addr.ip s.old) s in
    let rest = reload_all-Leaves addrs (reload_one addr (find addr.ip s.old) s) in
    (rest.0 ∙ one.0, rest.1 ∙ one.1)

reload_lbs_addresses-Leaves :
    (addrs : List NewSockAddress4) (c : LbsClient) → Leaves c (reload_lbs_addresses addrs c)
unfolding reload_lbs_addresses
reload_lbs_addresses-Leaves addrs c =
    reload_all-Leaves addrs (record { old = c.connections; next = []; client = c })

set_service_information_id :
    (service_id port : ℕ) (ips : List ℕ) (c : LbsClient)
    → (set_service_information service_id port ips c).service_id ≡ service_id
unfolding set_service_information reload_lbs_hosts
set_service_information_id service_id port [] c =
    (reload_lbs_addresses-Leaves _ (record c { service_id = service_id; service_port = port })).0
set_service_information_id service_id port (ip ∷ ips) c =
    (reload_lbs_addresses-Leaves _ (record c { service_id = service_id; service_port = port })).0

-- A reload of one address leaves one entry, for its ip.
reload_lbs_addresses_single :
    (ip port : ℕ) (c : LbsClient)
    → IsSound c
    → (k : Endpoint) × (find ip (reload_lbs_addresses (with_port port ip ∷ []) c).connections
        ≡ some (some k))
      × (k.address.ip ≡ ip)
      × ((j : ℕ)
          → j ≢ ip
          → find j (reload_lbs_addresses (with_port port ip ∷ []) c).connections ≡ none)
reload_lbs_addresses_single ip port c h =
    let sound = reload_lbs_addresses-IsSound (with_port port ip ∷ []) c h in
    elim (sound.non_null.non_null ip) [
      | inl absent ↦ absurd (
          stays absent
            (reload_lbs_addresses-IsReloaded ip (with_port port ip ∷ []) c h.non_null).entry)
      | inr (k, there) ↦ (
        k,
        there,
        sound.own_ips ip k there,
        λ j other.
            elim (reload_lbs_addresses-IsReloaded j (with_port port ip ∷ []) c h.non_null).entry [
              | inl (out, absent) ↦ absent
              | inr (within, served) ↦ absurd (other (ground arith))
            ],
      )
    ]
  where
    next : LbsClient
    next = reload_lbs_addresses (with_port port ip ∷ []) c

    stays :
        find ip next.connections ≡ none
        → ((contains ip (with_port port ip ∷ []) ≡ false) × (find ip next.connections ≡ none))
          ⊎ ((contains ip (with_port port ip ∷ []) ≡ true) × KeptOrNew ip c next.connections)
        → ⊥
    stays absent (inl (out, _)) = ground arith
    stays absent (inr (within, inl (k, was, is))) = ground arith
    stays absent (inr (within, inr (k, was, is, same, new))) = ground arith

-- Where the clock's lower 32 bits are not 0, the client that joins has one connection, to the address
-- of the LBS, whatever the host was resolved to before, and its timer does not run any more.
pub add_to_uni_lbs_joins :
    (ip ms port : ℕ) (ips : List ℕ)
    → u32 ms ≢ 0
    → (k : Endpoint) × (find ip (add_to_uni_lbs (some ip) ms port ips).connections ≡ some (some k))
      × (k.address.ip ≡ ip)
      × ((add_to_uni_lbs (some ip) ms port ips).timer ≡ none)
      × ((j : ℕ) → j ≢ ip → find j (add_to_uni_lbs (some ip) ms port ips).connections ≡ none)
unfolding add_to_uni_lbs update_lbs_addresses
add_to_uni_lbs_joins ip ms port ips clock =
    let c1 = set_service_information (u32 ms) port ips (init lbs_edge_service_port) in
    let sound =
      set_service_information-IsSound (u32 ms) port ips (init lbs_edge_service_port)
        (record { non_null = init-IsNonNull; own_ips = init-HasOwnIps }) in
    let running : (c1.service_id == 0) ≡ false = elim (Bool-cases (c1.service_id == 0)) [
      | inl zero_id ↦ absurd (
          clock (
            sym (set_service_information_id (u32 ms) port ips (init lbs_edge_service_port))
            ∙ (==_iff _ _).0 zero_id))
      | inr some_id ↦ some_id
    ] in
    let (k, there, same, only) =
      reload_lbs_addresses_single ip lbs_edge_service_port (record c1 { timer = none })
        (record { non_null = sound.non_null; own_ips = sound.own_ips }) in
    (
      k,
      rw running there,
      same,
      rw running
          (reload_lbs_addresses-Leaves (with_port lbs_edge_service_port ip ∷ [])
            (record c1 { timer = none })).1,
      λ j other. rw running (only j other),
    )
