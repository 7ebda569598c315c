-- ===== src/Orchestration/Names.antt =====
-- src/orchestration.rs and src/orchestration/: the names of tasks as text. An address or a path is its
-- code points.
use mavrouter.Prelude.{ℕ, ◌++◌, nat_eq}
use mavrouter.Prelude.Text.{Text, codes, to_string}
use mavrouter.Orchestration.{
  Name, dedup_rotator, routing_updater, implicit_tcp_server, tlog_logger, udp_endpoint,
  tcp_endpoint, serial_endpoint, stats_reporter, stats_socket,
}

abbrev numbered : Text → ℕ → Text → Text
numbered kind i address =
    kind ++ (codes " Endpoint " ++ (to_string i ++ (codes " (" ++ (address ++ codes ")"))))

unfoldable pub name_text : Name → Text
name_text dedup_rotator = codes "Dedup Rotator"
name_text routing_updater = codes "Routing Updater"
name_text (implicit_tcp_server port) = codes "Implicit TCP Server :" ++ to_string port
name_text (tlog_logger log_dir) = codes "TLog Logger " ++ codes log_dir
name_text (udp_endpoint i address) = numbered (codes "UDP") i (codes address)
name_text (tcp_endpoint i address) = numbered (codes "TCP") i (codes address)
name_text (serial_endpoint i device) = numbered (codes "Serial") i (codes device)
name_text stats_reporter = codes "Stats Reporter"
name_text (stats_socket socket_path) = codes "Stats Socket " ++ codes socket_path
