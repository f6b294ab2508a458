-- ===== src/Correlate/Binds/Max.antt =====
-- maxBindClass and overlayOnly over the sockets of a port.
use keelix.Prelude.{
  ℕ, ◌≤◌, ◌≡◌, ◌↔◌, refl, ap, ◌∙◌, Bool, true, false, not, ◌&&◌, List, [], ◌∷◌, arith,
  if◌then◌else◌, ◌==◌, Bool-cases, inl, inr, ◌⊎◌, Mem, here, there, ltb→lt, ==_iff, ltb-false→le,
  min,
}
use mathlib.Core.Bool.{false≢true}
use keelix.Model.Finding.{
  ExposureClass, unknown, filtered, exposure_rank, more_exposed, is_internet,
}
use keelix.Model.Signals.{ListeningSocket}
use keelix.Correlate.Binds.{
  bind_class, max_step, max_class, max_bind_class, is_inside, overlay_loop, overlay_only,
}

abbrev pub rank_of : ListeningSocket → ℕ
rank_of sock = exposure_rank (bind_class sock.bind)

max_step_grows :
    (port : ℕ) (max : ExposureClass) (sock : ListeningSocket)
    → exposure_rank max ≤ exposure_rank (max_step port max sock)
unfolding max_step
max_step_grows port max sock = elim (Bool-cases (more_exposed (bind_class sock.bind) max)) [
  | inr less ↦ rw less (ground arith)
  | inl more ↦ rw more (ground (arith, ltb→lt _ _ more))
]

max_step_bound :
    (port : ℕ) (max : ExposureClass) (sock : ListeningSocket)
    → sock.port ≡ port
    → rank_of sock ≤ exposure_rank (max_step port max sock)
unfolding max_step
max_step_bound port max sock e = elim (Bool-cases (more_exposed (bind_class sock.bind) max)) [
  | inr less ↦ rw less (ground (arith, ltb-false→le _ _ less))
  | inl more ↦ rw more (ground arith)
]

max_class_grows :
    (port : ℕ) (socks : List ListeningSocket) (max : ExposureClass)
    → exposure_rank max ≤ exposure_rank (max_class max port socks)
unfolding max_class
max_class_grows port [] max = omega arith
max_class_grows port (sock ∷ socks) max =
    omega (arith, max_step_grows port max sock, max_class_grows port socks (max_step port max sock))

max_class_bound :
    (port : ℕ) {sock : ListeningSocket} {socks : List ListeningSocket} (max : ExposureClass)
    → Mem sock socks
    → sock.port ≡ port
    → rank_of sock ≤ exposure_rank (max_class max port socks)
unfolding max_class
max_class_bound port {sock} max (here {xs = socks}) e =
    omega
      (arith, max_step_bound port max sock e, max_class_grows port socks (max_step port max sock))
max_class_bound port max (there {x} m) e = max_class_bound port (max_step port max x) m e

-- A class that some socket on the port has.
abbrev Attains : ℕ → List ListeningSocket → ExposureClass → Type 0
Attains port socks c =
    (sock : ListeningSocket) × Mem sock socks × (sock.port ≡ port) × (c ≡ bind_class sock.bind)

max_step_cases :
    (port : ℕ) (max : ExposureClass) (sock : ListeningSocket)
    → (max_step port max sock ≡ max)
      ⊎ ((sock.port ≡ port) × (max_step port max sock ≡ bind_class sock.bind))
unfolding max_step
max_step_cases port max sock = elim (Bool-cases (more_exposed (bind_class sock.bind) max)) [
  | inr less ↦ rw less (ground arith)
  | inl more ↦ rw more (ground arith)
]

max_class_attained :
    (port : ℕ) (socks : List ListeningSocket) (max : ExposureClass)
    → (max_class max port socks ≡ max) ⊎ Attains port socks (max_class max port socks)
unfolding max_class
max_class_attained port [] max = inl refl
max_class_attained port (sock ∷ socks) max =
    elim (max_class_attained port socks (max_step port max sock)) [
      | inr (s, m, e, c) ↦ inr (s, there m, e, c)
      | inl kept ↦ elim (max_step_cases port max sock) [
        | inl same ↦ inl (kept ∙ same)
        | inr (e, c) ↦ inr (sock, here, e, kept ∙ c)
      ]
    ]

-- The rank that a class may reach: a wildcard bind that the probe did not confirm counts as
-- filtered.
abbrev pub allowed : Bool → ℕ → ℕ
allowed probe_open n = min n (if probe_open then 5 else 4)

pub max_bind_class_rank :
    (sockets : List ListeningSocket) (port : ℕ) (probe_open : Bool)
    → exposure_rank (max_bind_class sockets port probe_open)
      ≡ allowed probe_open (exposure_rank (max_class unknown port sockets))
unfolding max_bind_class
max_bind_class_rank sockets port probe_open = go (max_class unknown port sockets) probe_open
  where
    go :
        (c : ExposureClass) (b : Bool)
        → exposure_rank (if is_internet c && not b then filtered else c)
          ≡ allowed b (exposure_rank c)
    go c true = ground arith
    go c false = ground arith

-- The class is at least that of each socket on the port, up to what the probe allows; and it is
-- unknown or that of one of those sockets, up to what the probe allows.
max_bind_class_max :
    (sockets : List ListeningSocket) (port : ℕ) (probe_open : Bool)
    → ((sock : ListeningSocket)
        → Mem sock sockets
        → sock.port ≡ port
        → allowed probe_open (rank_of sock)
          ≤ exposure_rank (max_bind_class sockets port probe_open))
      × ((exposure_rank (max_bind_class sockets port probe_open) ≡ 0)
          ⊎ ((sock : ListeningSocket) × Mem sock sockets
              × (sock.port ≡ port)
              × (exposure_rank (max_bind_class sockets port probe_open)
                  ≡ allowed probe_open (rank_of sock))))
max_bind_class_max sockets port probe_open = (
  λ sock m e.
      omega (arith, max_bind_class_rank sockets port probe_open, max_class_bound port unknown m e),
  elim (max_class_attained port sockets unknown) [
    | inl none ↦
        inl (omega (arith, max_bind_class_rank sockets port probe_open, ap exposure_rank none))
    | inr (sock, m, e, c) ↦
        inr (
          sock,
          m,
          e,
          omega (arith, max_bind_class_rank sockets port probe_open, ap exposure_rank c),
        )
  ],
)

-- Every socket on the port is bound inside: to an overlay or to the loopback.
abbrev pub AllInside : ℕ → List ListeningSocket → Type 0
AllInside port socks =
    (sock : ListeningSocket)
    → Mem sock socks
    → sock.port ≡ port
    → is_inside (bind_class sock.bind) ≡ true

abbrev pub HasSocket : ℕ → List ListeningSocket → Type 0
HasSocket port socks = (sock : ListeningSocket) × Mem sock socks × (sock.port ≡ port)

overlay_loop-AllInside :
    (port : ℕ) {sock : ListeningSocket} {socks : List ListeningSocket} (found : Bool)
    → Mem sock socks
    → overlay_loop found port socks ≡ true
    → sock.port ≡ port
    → is_inside (bind_class sock.bind) ≡ true
unfolding overlay_loop
overlay_loop-AllInside port found here h e = ground arith
overlay_loop-AllInside port {sock} found (there {x} {xs} m) h e =
    elim (Bool-cases (x.port == port)) [
      | inr other ↦ overlay_loop-AllInside port found m (ground arith) e
      | inl same ↦ overlay_loop-AllInside port true m (ground arith) e
    ]

overlay_loop-HasSocket :
    (port : ℕ) (socks : List ListeningSocket)
    → overlay_loop false port socks ≡ true
    → HasSocket port socks
unfolding overlay_loop
overlay_loop-HasSocket port [] h = absurd (false≢true h)
overlay_loop-HasSocket port (x ∷ xs) h = elim (Bool-cases (x.port == port)) [
  | inl same ↦ (x, here, (==_iff x.port port).0 same)
  | inr other ↦
      let (sock, m, e) = overlay_loop-HasSocket port xs (ground arith) in (sock, there m, e)
]

overlay_loop-found :
    (port : ℕ) (socks : List ListeningSocket)
    → AllInside port socks
    → overlay_loop true port socks ≡ true
unfolding overlay_loop
overlay_loop-found port [] h = refl
overlay_loop-found port (x ∷ xs) h =
    ground (arith, h x here, overlay_loop-found port xs (λ s m e. h s (there m) e))

overlay_loop_complete :
    (port : ℕ) {sock : ListeningSocket} {socks : List ListeningSocket}
    → Mem sock socks
    → sock.port ≡ port
    → AllInside port socks
    → overlay_loop false port socks ≡ true
unfolding overlay_loop
overlay_loop_complete port {sock} (here {xs}) e h =
    ground (arith, h sock here e, overlay_loop-found port xs (λ s m e. h s (there m) e))
overlay_loop_complete port (there {x} {xs} m) e h = ground (
  arith,
  h x here,
  overlay_loop-found port xs (λ s m e. h s (there m) e),
  overlay_loop_complete port m e (λ s m e. h s (there m) e),
)

-- A port is reachable over an overlay only exactly when it has a socket and each socket on it is
-- bound to an overlay or a loopback address.
pub overlay_only_iff :
    (sockets : List ListeningSocket) (port : ℕ)
    → (overlay_only sockets port ≡ true) ↔ (HasSocket port sockets × AllInside port sockets)
unfolding overlay_only
overlay_only_iff sockets port = (
  λ h. (overlay_loop-HasSocket port sockets h, λ s m e. overlay_loop-AllInside port false m h e),
  λ (some_socket, all). overlay_loop_complete port some_socket.1 some_socket.2 all,
)
