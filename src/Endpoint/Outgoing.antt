-- ===== src/Endpoint/Outgoing.antt =====
-- Which messages of the bus an endpoint sends out.
use mavrouter.Prelude.{inl, inr, true, arith, Bool-cases, ◌≡◌, ◌≢◌, ◌↔◌, ◌⊎◌, ◌==◌, nat_eq}
use mavrouter.Filter.{PassesOutgoing, check_outgoing, check_outgoing_iff}
use mavrouter.Routing.Table.{RoutingTable, should_send}
use mavrouter.Routing.View.{view}
use mavrouter.Routing.Decisions.{IsSniffer, Routed, should_send_iff}
use mavrouter.Endpoint.{EndpointCore, RoutedMessage, check_outgoing_message}

outgoing→ :
    (rt : RoutingTable) (core : EndpointCore) (msg : RoutedMessage)
    → check_outgoing_message rt core msg ≡ true
    → (msg.source_id ≢ core.id)
      × (check_outgoing core.filters msg.header msg.message_id ≡ true)
      × (should_send rt core.id msg.target.system_id msg.target.component_id ≡ true)
unfolding check_outgoing_message
outgoing→ rt core msg h =
    let to_all = should_send_iff rt core.id msg.target.system_id msg.target.component_id in
    (
      ground arith,
      ground arith,
      elim (Bool-cases (msg.target.system_id == 0)) [
        | inl all ↦ to_all.1 (inr (inl (ground arith)))
        | inr one ↦ ground arith
      ],
    )

→outgoing :
    (rt : RoutingTable) (core : EndpointCore) (msg : RoutedMessage)
    → msg.source_id ≢ core.id
    → check_outgoing core.filters msg.header msg.message_id ≡ true
    → should_send rt core.id msg.target.system_id msg.target.component_id ≡ true
    → check_outgoing_message rt core msg ≡ true
unfolding check_outgoing_message
→outgoing rt core msg h k l = ground arith

-- An endpoint sends a message of the bus exactly if it is not the endpoint the message came from,
-- its outgoing filters pass the message, and it has seen a sniffer system, or the message is a
-- broadcast, or the most specific route to its target names the endpoint or its group.
pub check_outgoing_message_iff :
    (rt : RoutingTable) (core : EndpointCore) (msg : RoutedMessage)
    → (check_outgoing_message rt core msg ≡ true) ↔ (
        (msg.source_id ≢ core.id)
        × PassesOutgoing core.filters msg.header msg.message_id
        × (IsSniffer (view rt) core.id
            ⊎ (msg.target.system_id ≡ 0)
            ⊎ Routed (view rt) core.id msg.target.system_id msg.target.component_id))
check_outgoing_message_iff rt core msg =
    let filters = check_outgoing_iff core.filters msg.header msg.message_id in
    let routes = should_send_iff rt core.id msg.target.system_id msg.target.component_id in
    (
      λ h.
          let (other, passes, route) = outgoing→ rt core msg h in
          (other, filters.0 passes, routes.0 route),
      λ h. →outgoing rt core msg h.0 (filters.1 h.1) (routes.1 h.2),
    )
