-- ===== src/Correlate/Binds.antt =====
-- bindClass, maxBindClass and overlayOnly of classify.go.
pub mod Max
use keelix.Prelude.{
  ℕ, Bool, true, false, not, ◌&&◌, ◌||◌, List, [], ◌∷◌, none, some, ◌==◌, if◌then◌else◌,
}
use keelix.Text.{Text, codes, text_eq, trim_space}
use keelix.Net.{Ip, parse_ip, is_loopback_ip, is_link_local_unicast, is_private, in_cgnat}
use keelix.Model.Finding.{
  ExposureClass, unknown, localhost, overlay, lan, filtered, internet, more_exposed, is_internet,
}
use keelix.Model.Signals.{ListeningSocket}

unfoldable pub ip_class : Ip → ExposureClass
ip_class ip =
    if is_loopback_ip ip
    then localhost
    else if is_link_local_unicast ip
    then lan
    else if in_cgnat ip
    then overlay
    else if is_private ip
    then lan
    else internet

-- bindClass
unfoldable pub bind_class : Text → ExposureClass
bind_class bind =
    let b = trim_space bind in
    if text_eq b []
    then unknown
    else if text_eq b (codes "0.0.0.0") || text_eq b (codes "::")
    then internet
    else elim (parse_ip b) [ none ↦ unknown | some ip ↦ ip_class ip ]

-- The body of the loop of maxBindClass, for one socket.
unfoldable pub max_step : ℕ → ExposureClass → ListeningSocket → ExposureClass
max_step port max sock =
    if sock.port == port
    then if more_exposed (bind_class sock.bind) max then bind_class sock.bind else max
    else max

unfoldable pub max_class : ExposureClass → ℕ → List ListeningSocket → ExposureClass
max_class max port [] = max
max_class max port (sock ∷ socks) = max_class (max_step port max sock) port socks

-- maxBindClass
unfoldable pub max_bind_class : List ListeningSocket → ℕ → Bool → ExposureClass
max_bind_class sockets port probe_open =
    let max = max_class unknown port sockets in
    if is_internet max && not probe_open then filtered else max

abbrev is_inside : ExposureClass → Bool
is_inside overlay = true
is_inside localhost = true
is_inside _ = false

overlay_loop : Bool → ℕ → List ListeningSocket → Bool
overlay_loop found port [] = found
overlay_loop found port (sock ∷ socks) =
    let next = overlay_loop true port socks in
    let skipped = overlay_loop found port socks in
    if sock.port == port then if is_inside (bind_class sock.bind) then next else false else skipped

-- overlayOnly
unfoldable pub overlay_only : List ListeningSocket → ℕ → Bool
unfolding overlay_loop
overlay_only sockets port = overlay_loop false port sockets
