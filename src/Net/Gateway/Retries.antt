-- ===== src/Net/Gateway/Retries.antt =====
-- Which links a gateway brings up again: gw_retry_negotiation of src/net/gateway_device.cpp over
-- vpd_retry_negotiation of src/net/virtual_port_device.cpp.
use mathlib.Core.Path.{subst}
use bm_sbc.Prelude.{
  ℕ, zero, suc, ◌-◌, ◌≤◌, ◌<◌, ◌≡◌, refl, ◌∙◌, Bool, true, false, Option, none, some, List, [], ◌∷◌,
  ◌++◌, get_or, set, not, ltb, by_if, All, All-append, arith,
}
use bm_sbc.Uart.Transport.{Port}
use bm_sbc.Net.Errors.{BmErr, bm_ok, bm_einval}
use bm_sbc.Net.VirtualPort.{
  PeerEntry, VirtualPort, Event, bad_port, link_change, no_peer, notify, reconnect, or_socket,
  retry_negotiation,
}
use bm_sbc.Net.VirtualPort.Sending.{is_open}
use bm_sbc.Net.Device.{System, vpd_trait}
use bm_sbc.Net.Gateway.{
  Gateway, GwEvent, vpd_event, vpd_events, gateway_device_get, gw_retry_negotiation,
}

get_or-set_other :
    (ps : List PeerEntry) (i j : ℕ) (p : PeerEntry)
    → i < j
    → get_or (set ps i p) j no_peer ≡ get_or ps j no_peer
get_or-set_other [] i j p h = ground arith
get_or-set_other (q ∷ ps) zero zero p h = absurd (omega arith)
get_or-set_other (q ∷ ps) zero (suc j) p h = refl
get_or-set_other (q ∷ ps) (suc i) zero p h = refl
get_or-set_other (q ∷ ps) (suc i) (suc j) p h = get_or-set_other ps i j p (omega arith)

get_or-set_self :
    (ps : List PeerEntry) (i : ℕ) (p : PeerEntry)
    → (get_or ps i no_peer).active ≡ true
    → get_or (set ps i p) i no_peer ≡ p
get_or-set_self [] i p h = cc
get_or-set_self (q ∷ ps) zero p h = refl
get_or-set_self (q ∷ ps) (suc i) p h = get_or-set_self ps i p h

active-set :
    (ps : List PeerEntry) (i k : ℕ) (p : PeerEntry)
    → p.active ≡ (get_or ps i no_peer).active
    → (get_or (set ps i p) k no_peer).active ≡ (get_or ps k no_peer).active
active-set [] i k p h = ground arith
active-set (q ∷ ps) zero zero p h = h
active-set (q ∷ ps) zero (suc k) p h = refl
active-set (q ∷ ps) (suc i) zero p h = refl
active-set (q ∷ ps) (suc i) (suc k) p h = active-set ps i k p h

-- What a retry below the last port leaves alone.
record Kept (s s' : VirtualPort) : Type 0 where
  configured : (k : ℕ) → (get_or s'.peers k no_peer).active ≡ (get_or s.peers k no_peer).active
  last : get_or s'.peers 13 no_peer ≡ get_or s.peers 13 no_peer
  callback : s'.has_link_change ≡ s.has_link_change

unchanged : (s : VirtualPort) → Kept s s
unchanged s = record { configured = λ k. refl; last = refl; callback = refl }

in_turn : (s s' s'' : VirtualPort) → Kept s s' → Kept s' s'' → Kept s s''
in_turn s s' s'' h k = record {
  configured = λ i. k.configured i ∙ h.configured i;
  last = k.last ∙ h.last;
  callback = k.callback ∙ h.callback;
}

-- Not a report on the link of index 13, which is the last of the gateway's virtual ports.
abbrev pub IsBelow : GwEvent → Type 0
IsBelow (vpd_event (link_change idx up)) = idx < 13
IsBelow _ = Unit {0}

abbrev VpdKeeps : VirtualPort → (VirtualPort × BmErr × List Event) × Bool → Type 0
VpdKeeps s r = Kept s r.0.0 × All IsBelow (vpd_events r.0.2)

notify-IsBelow :
    (has_link_change : Bool) (idx : ℕ)
    → idx < 13
    → All IsBelow (vpd_events (notify has_link_change idx true))
notify-IsBelow has_link_change idx h = ground arith

reconnect-VpdKeeps :
    (sfd : Option ℕ) (idx : ℕ) (s : VirtualPort)
    → idx < 13
    → VpdKeeps s (reconnect sfd idx (get_or s.peers idx no_peer) s)
reconnect-VpdKeeps sfd idx s h =
    let p = get_or s.peers idx no_peer in
    elim (or_socket p.send_fd sfd)
      as (λ o. VpdKeeps s (elim o [
        | none ↦ ((s, bm_ok, []), false)
        | some fd ↦ (
          (
            record s { peers = set s.peers idx (record p { send_fd = some fd }) },
            bm_ok,
            notify s.has_link_change idx true,
          ),
          true,
        )
      ])) [
        | none ↦ (unchanged s, tt)
        | some fd ↦ (
          record {
            configured = λ k. active-set s.peers idx k (record p { send_fd = some fd }) refl;
            last = get_or-set_other s.peers idx 13 (record p { send_fd = some fd }) h;
            callback = refl;
          },
          notify-IsBelow s.has_link_change idx h,
        )
      ]

retry_negotiation-VpdKeeps :
    (reachable : Bool) (sfd : Option ℕ) (i : ℕ) (s : VirtualPort)
    → i < 14
    → VpdKeeps s (retry_negotiation reachable sfd i s)
unfolding retry_negotiation
retry_negotiation-VpdKeeps reachable sfd i s h =
    let nothing : (err : BmErr) → VpdKeeps s ((s, err, []), false) = λ err. (unchanged s, tt) in
    by_if (VpdKeeps s) (bad_port i) _ _ (λ _. nothing bm_einval)
      (λ good.
        by_if (VpdKeeps s) (not (get_or s.peers (i - 1) no_peer).active) _ _ (λ _. nothing bm_ok)
          (λ _.
            by_if (VpdKeeps s) (not reachable) _ _ (λ _. nothing bm_ok)
              (λ _. reconnect-VpdKeeps sfd (i - 1) s (ground (arith, good)))))

-- The gateway.
record GwKept (g g' : Gateway VirtualPort) : Type 0 where
  ports : g'.vpd_ports ≡ 14
  vpd : Kept g.vpd g'.vpd

abbrev GwKeeps : Gateway VirtualPort → (Gateway VirtualPort × BmErr × List GwEvent) × Bool → Type 0
GwKeeps g r = GwKept g r.0.0 × All IsBelow r.0.2

gw_retry_negotiation-GwKeeps :
    (y : System) (i : ℕ) (g : Gateway VirtualPort)
    → g.vpd_ports ≡ 14
    → GwKeeps g (gw_retry_negotiation (vpd_trait y) i g)
unfolding gw_retry_negotiation vpd_trait
gw_retry_negotiation-GwKeeps y i g ports =
    by_if (GwKeeps g) (ltb i g.vpd_ports) _ _
      (λ low.
        let (kept, below) =
          retry_negotiation-VpdKeeps y.reachable y.sfd i g.vpd (ground (arith, low, ports)) in
        (record { ports = ports; vpd = kept }, below))
      (λ _. (record { ports = ports; vpd = unchanged g.vpd }, tt))

-- Retries one after another: the port, and what the system calls of each return.
pub retries : List (System × ℕ) → Gateway VirtualPort → Gateway VirtualPort × List GwEvent
retries [] g = (g, [])
retries ((y, i) ∷ rest) g =
    let ((now, err, events), renegotiated) = gw_retry_negotiation (vpd_trait y) i g in
    let (last, later) = retries rest now in (last, events ++ later)

retries-GwKeeps :
    (rs : List (System × ℕ)) (g : Gateway VirtualPort)
    → g.vpd_ports ≡ 14
    → GwKept g (retries rs g).0 × All IsBelow (retries rs g).1
unfolding retries
retries-GwKeeps [] g ports = (record { ports = ports; vpd = unchanged g.vpd }, tt)
retries-GwKeeps ((y, i) ∷ rest) g ports =
    let (kept, below) = gw_retry_negotiation-GwKeeps y i g ports in
    let now = (gw_retry_negotiation (vpd_trait y) i g).0.0 in
    let (kept', below') = retries-GwKeeps rest now kept.ports in
    (
      record { ports = kept'.ports; vpd = in_turn g.vpd now.vpd _ kept.vpd kept'.vpd },
      All-append IsBelow _ _ below below',
    )

-- A retry for a peer that is there.
abbrev pub Connects : ℕ → Bool → (Gateway VirtualPort × BmErr × List GwEvent) × Bool → Type 0
Connects i has_link_change ((g, err, events), renegotiated) =
    (renegotiated ≡ true)
    × (err ≡ bm_ok)
    × (events ≡ vpd_events (notify has_link_change (i - 1) true))
    × (is_open (get_or g.vpd.peers (i - 1) no_peer).send_fd ≡ true)

opened : (fd : Option ℕ) (new : ℕ) → (n : ℕ) × (or_socket fd (some new) ≡ some n)
opened none new = (new, refl)
opened (some n) new = (n, refl)

retry-Connects :
    (y : System) (i fd : ℕ) (g : Gateway VirtualPort)
    → g.vpd_ports ≡ 14
    → 1 ≤ i
    → i < 14
    → (get_or g.vpd.peers (i - 1) no_peer).active ≡ true
    → y.reachable ≡ true
    → y.sfd ≡ some fd
    → Connects i g.vpd.has_link_change (gw_retry_negotiation (vpd_trait y) i g)
unfolding gw_retry_negotiation vpd_trait retry_negotiation
retry-Connects y i fd g ports low high active reachable sfd =
    let p = get_or g.vpd.peers (i - 1) no_peer in
    let (n, is) = opened p.send_fd fd in
    let kept : get_or (set g.vpd.peers (i - 1) (record p { send_fd = some n })) (i - 1) no_peer
        ≡ record p { send_fd = some n } =
      get_or-set_self g.vpd.peers (i - 1) (record p { send_fd = some n }) active in
    ground (arith, ports, active, reachable, sfd, is, kept)

module _ (vpd_dev : VirtualPort) (uart : Port) (rs : List (System × ℕ)) (y : System)
    (i fd : ℕ) where
  -- A gateway of virtual ports, and any retries on it, for any ports. After them a retry for a port
  -- from 1 to 13 with a configured peer, whose socket exists and can be connected to, succeeds: it
  -- reports the port as renegotiated, its link as up where there is a callback for that, and its send
  -- socket is open. In all of this the last of the 14 virtual ports of the gateway is left out: its
  -- slot is what it was at first, and its link is never reported up.
  pub gw_retry_negotiation_lem :
      1 ≤ i
      → i < 14
      → (get_or vpd_dev.peers (i - 1) no_peer).active ≡ true
      → y.reachable ≡ true
      → y.sfd ≡ some fd
      → let (g, events) = retries rs (gateway_device_get (vpd_trait y) vpd_dev uart) in
        let r = gw_retry_negotiation (vpd_trait y) i g in
        Connects i vpd_dev.has_link_change r
        × (get_or r.0.0.vpd.peers 13 no_peer ≡ get_or vpd_dev.peers 13 no_peer)
        × All IsBelow (events ++ r.0.2)
  unfolding gateway_device_get vpd_trait
  gw_retry_negotiation_lem low high active reachable sfd =
      let start : Gateway VirtualPort = gateway_device_get (vpd_trait y) vpd_dev uart in
      let g = (retries rs start).0 in
      let (kept, below) = retries-GwKeeps rs start refl in
      let (now, more) = gw_retry_negotiation-GwKeeps y i g kept.ports in
      let connects =
        retry-Connects y i fd g kept.ports low high (kept.vpd.configured (i - 1) ∙ active) reachable
          sfd in
      (
        subst (λ has. Connects i has (gw_retry_negotiation (vpd_trait y) i g)) kept.vpd.callback
            connects,
        now.vpd.last ∙ kept.vpd.last,
        All-append IsBelow _ _ below more,
      )
