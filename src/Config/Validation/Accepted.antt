-- ===== src/Config/Validation/Accepted.antt =====
-- `validate` accepts exactly the valid configurations.
use mavrouter.Prelude.{
  ℕ, refl, subst, Option, none, some, List, [], arith, All, ◌+◌, ◌≡◌, ◌↔◌, ◌∷◌, nat_eq, string_eq,
  name_eq,
}
use Prim.Native.String.{String}
use mavrouter.Prelude.Sets.{Distinct, contains}
use mavrouter.Config.{
  fixed, auto, EndpointConfig, tcp, udp, serial, filters_of, Config, ok, claim_address, check_rates,
  first_ports, validate_endpoint, validate_endpoints, validate, rates,
}
use mavrouter.Config.Validation.{
  AddressOk, EndpointOk, with_protocol, with_port, with_ports, IsValid,
}
use mavrouter.Config.Validation.Stages.{
  and_then-ok, check_rates_iff, check_all_msg_ids_iff, check_general_iff, claim_fresh, claim_taken,
}

claim_address→ :
    (i : ℕ) (protocol : String) (port : Option ℕ) (ports claimed : List (String × ℕ))
    → claim_address i protocol port ports ≡ ok claimed
    → Distinct ports
    → ((p : ℕ) × (port ≡ some p))
      × (claimed ≡ with_protocol protocol port ports)
      × Distinct (with_protocol protocol port ports)
claim_address→ i protocol none ports claimed h d = absurd (ground arith)
claim_address→ i protocol (some p) ports claimed h d =
    let (fresh, grown) = claim_fresh i protocol p ports claimed h in ((p, refl), grown, (fresh, d))

→claim_address :
    (i : ℕ) (protocol : String) (port : Option ℕ) (ports : List (String × ℕ))
    → ((p : ℕ) × (port ≡ some p))
    → Distinct (with_protocol protocol port ports)
    → claim_address i protocol port ports ≡ ok (with_protocol protocol port ports)
→claim_address i protocol none ports h d = absurd (ground (arith, h.1))
→claim_address i protocol (some p) ports h d = claim_taken i protocol p ports d.0

module _ (parse_port : String → Option ℕ) where
  endpoint→ :
      (i : ℕ) (e : EndpointConfig) (ports claimed : List (String × ℕ))
      → validate_endpoint parse_port i e ports ≡ ok claimed
      → Distinct ports
      → AddressOk parse_port e
        × (claimed ≡ with_port parse_port e ports)
        × Distinct (with_port parse_port e ports)
  unfolding validate_endpoint rates
  endpoint→ i (tcp address mode filters name) ports claimed h d =
      claim_address→ i "tcp" (parse_port address) ports claimed h d
  endpoint→ i (udp address mode timeout filters name) ports claimed h d =
      claim_address→ i "udp" (parse_port address) ports claimed h d
  endpoint→ i (serial device (fixed rate) flow filters name) ports claimed h d =
      let (u, e, same) = and_then-ok (check_rates i (rate ∷ [])) (λ u. ok ports) claimed h in
      (
        ((λ q. absurd (ground (arith, q))), (check_rates_iff i (rate ∷ [])).0 e),
        ground (arith, same),
        d,
      )
  endpoint→ i (serial device (auto []) flow filters name) ports claimed h d = absurd (ground arith)
  endpoint→ i (serial device (auto (rate ∷ all)) flow filters name) ports claimed h d =
      let (u, e, same) = and_then-ok (check_rates i (rate ∷ all)) (λ u. ok ports) claimed h in
      (
        ((λ q. absurd (ground (arith, q))), (check_rates_iff i (rate ∷ all)).0 e),
        ground (arith, same),
        d,
      )

  →endpoint :
      (i : ℕ) (e : EndpointConfig) (ports : List (String × ℕ))
      → AddressOk parse_port e
      → Distinct (with_port parse_port e ports)
      → validate_endpoint parse_port i e ports ≡ ok (with_port parse_port e ports)
  unfolding validate_endpoint rates
  →endpoint i (tcp address mode filters name) ports h d =
      →claim_address i "tcp" (parse_port address) ports h d
  →endpoint i (udp address mode timeout filters name) ports h d =
      →claim_address i "udp" (parse_port address) ports h d
  →endpoint i (serial device (fixed rate) flow filters name) ports h d =
      rw ((check_rates_iff i (rate ∷ [])).1 h.1) refl
  →endpoint i (serial device (auto []) flow filters name) ports h d = absurd (h.0 refl)
  →endpoint i (serial device (auto (rate ∷ all)) flow filters name) ports h d =
      rw ((check_rates_iff i (rate ∷ all)).1 h.1) refl

  with_protocol-Distinct :
      (protocol : String) (port : Option ℕ) (ports : List (String × ℕ))
      → Distinct (with_protocol protocol port ports)
      → Distinct ports
  with_protocol-Distinct protocol none ports d = d
  with_protocol-Distinct protocol (some p) ports d = d.1

  with_port-Distinct :
      (e : EndpointConfig) (ports : List (String × ℕ))
      → Distinct (with_port parse_port e ports)
      → Distinct ports
  with_port-Distinct (tcp address mode filters name) ports d =
      with_protocol-Distinct "tcp" (parse_port address) ports d
  with_port-Distinct (udp address mode timeout filters name) ports d =
      with_protocol-Distinct "udp" (parse_port address) ports d
  with_port-Distinct (serial device baud flow filters name) ports d = d

  with_ports-Distinct :
      (es : List EndpointConfig) (ports : List (String × ℕ))
      → Distinct (with_ports parse_port es ports)
      → Distinct ports
  with_ports-Distinct [] ports d = d
  with_ports-Distinct (e ∷ es) ports d =
      with_port-Distinct e ports (with_ports-Distinct es (with_port parse_port e ports) d)

  endpoints→ :
      (i : ℕ) (es : List EndpointConfig) (ports : List (String × ℕ))
      → validate_endpoints parse_port i es ports ≡ ok tt
      → Distinct ports
      → All (EndpointOk parse_port) es × Distinct (with_ports parse_port es ports)
  unfolding validate_endpoints
  endpoints→ i [] ports h d = (tt, d)
  endpoints→ i (e ∷ es) ports h d =
      let (claimed, first, later) = and_then-ok (validate_endpoint parse_port i e ports) _ tt h in
      let (u, ids, rest) = and_then-ok _ _ tt later in
      let (address, same, distinct) = endpoint→ i e ports claimed first d in
      let (all, all_distinct) =
        endpoints→ (i + 1) es (with_port parse_port e ports)
          (subst (λ ps. validate_endpoints parse_port (i + 1) es ps ≡ ok tt) same rest) distinct in
      (((address, (check_all_msg_ids_iff i (filters_of e)).0 ids), all), all_distinct)

  →endpoints :
      (i : ℕ) (es : List EndpointConfig) (ports : List (String × ℕ))
      → All (EndpointOk parse_port) es
      → Distinct (with_ports parse_port es ports)
      → validate_endpoints parse_port i es ports ≡ ok tt
  unfolding validate_endpoints
  →endpoints i [] ports h d = refl
  →endpoints i (e ∷ es) ports h d =
      let next = with_port parse_port e ports in
      rw
        (
          →endpoint i e ports h.0.0 (with_ports-Distinct es next d),
          (check_all_msg_ids_iff i (filters_of e)).1 h.0.1,
        )
        (→endpoints (i + 1) es next h.1 d)

  first_ports-Distinct : (port : Option ℕ) → Distinct (first_ports port)
  unfolding contains
  first_ports-Distinct none = tt
  first_ports-Distinct (some port) = (refl, tt)

  pub validate_iff : (c : Config) → (validate parse_port c ≡ ok tt) ↔ IsValid parse_port c
  unfolding validate
  validate_iff c =
      let general = check_general_iff c.general in
      let ports = first_ports c.general.tcp_port in
      (
        λ h.
            let (u, first, rest) = and_then-ok _ _ tt h in
            let (all, distinct) =
              endpoints→ 0 c.endpoint ports first (first_ports-Distinct c.general.tcp_port) in
            let (low, high, interval) = general.0 rest in (all, distinct, low, high, interval),
        λ h. rw (→endpoints 0 c.endpoint ports h.0 h.1) (general.1 (h.2, h.3, h.4)),
      )
