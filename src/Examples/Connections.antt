-- ===== src/Examples/Connections.antt =====
-- Runs of the sessions of gateway/network/.
use mathlib.Core.List.{Perm}
use file_server.Prelude.{ℕ, ◌≡◌, refl, true, false, [], ◌∷◌, length, map, arith}
use file_server.Gateway.Sessions.{add_session, connection_count}
use file_server.Gateway.Sessions.Lookup.{IsNumbered}
use file_server.Gateway.TcpServer.{new_server, on_connection}
use file_server.Gateway.TcpServer.Tracking.{
  Net, has, without, up, down, Reach, here, next, sessions_track,
}

abbrev quiet : Net ℕ
quiet = record { server = new_server; user = 0; open_conns = [] }

abbrev with_up : ℕ → Net ℕ → Net ℕ
with_up conn n = record {
  server = (on_connection (λ c. has c n.open_conns) conn true n.server n.user).0;
  user = (on_connection (λ c. has c n.open_conns) conn true n.server n.user).1;
  open_conns = conn ∷ n.open_conns;
}

abbrev with_down : ℕ → Net ℕ → Net ℕ
with_down conn n = record {
  server = (on_connection (λ c. has c n.open_conns) conn false n.server n.user).0;
  user = (on_connection (λ c. has c n.open_conns) conn false n.server n.user).1;
  open_conns = without conn n.open_conns;
}

-- Two connections come up, and the first one goes down.
abbrev one_left : Net ℕ
one_left = with_down 60 (with_up 70 (with_up 60 quiet))

reach_one_left : Reach quiet one_left
unfolding on_connection add_session
reach_one_left =
    next (next (next here (up 60 refl (omega arith))) (up 70 refl (omega arith))) (down 60 refl)

sessions_track_example :
    IsNumbered one_left.server.manager
    × Perm (map (λ s. s.conn) one_left.server.manager.sessions) one_left.open_conns
    × (connection_count one_left.server.manager ≡ length one_left.open_conns)
sessions_track_example = sessions_track 0 one_left reach_one_left
