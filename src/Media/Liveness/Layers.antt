-- ===== src/Media/Liveness/Layers.antt =====
-- src/media/liveness.rs: the resolver and the layer of the connector, through which the media client opens
-- its connections. A call of the layer counts the connection, and looks the name up if it has one.
use grindr_rs.Prelude.{Text, if◌then◌else◌}
use grindr_rs.Media.Hosts.{is_cdn_host}
use package.grindr_rs.Media.Liveness.{State, connected, dialed}

-- `Resolve::resolve`; the lookup itself is the library's.
unfoldable pub resolve : Text → State → State
unfolding is_cdn_host dialed
resolve host s = if is_cdn_host host then dialed s host else s

-- `Service::call` of the layer.
unfoldable pub call : State → State
unfolding connected
call s = connected s
