-- ===== src/Mcp/Client/Sends.antt =====
-- The number of requests of a discovery, on a transport that counts them.
use keelix.Prelude.{ℕ, zero, suc, ◌+◌, ◌≤◌, ◌≡◌, refl, ◌∙◌, ap, List, [], ◌∷◌, ◌++◌, arith}
use keelix.Text.{Text, codes}
use keelix.Outcome.{Outcome, done, fail, Call, follow, lift, ◌>>=◌, named, labelled}
use keelix.Mcp.Client.{
  Tool, Request, initialize, list_tools, supported_protocol, Transport, Codec, fetch_page, go_on,
  list_pages, handshake, discover, max_tool_pages, check_version,
}

-- The transport, with a count of the calls of Send beside its world.
unfoldable pub counted : {S : Type 0} → Transport S → Transport (S × ℕ)
counted t = record {
  send = λ r (s, n). let (o, s') = t.send r s in (o, (s', suc n));
  notify = λ (s, n). let (o, s') = t.notify s in (o, (s', n));
}

-- A run ends as another one, with at most k more on the counter.
abbrev EndsAs : {S A : Type 0} → ℕ → ℕ → Outcome A × S → Outcome A × (S × ℕ) → Type 0
EndsAs k n r r' = (j : ℕ) × (j ≤ k) × (r' ≡ (r.0, (r.1, j + n)))

-- A call on the counting world does what the call on the world does, with at most k requests.
Tracks : {S A : Type 0} → ℕ → Call S A → Call (S × ℕ) A → Type 0
Tracks {S = S} k m m' = (s : S) (n : ℕ) → EndsAs k n (m s) (m' (s, n))

follow-Tracks :
    {S A B : Type 0} (k l n : ℕ) (r : Outcome A × S) (r' : Outcome A × (S × ℕ)) (f : A → Call S B)
    (f' : A → Call (S × ℕ) B)
    → EndsAs k n r r'
    → ((a : A) → Tracks l (f a) (f' a))
    → EndsAs (k + l) n (follow r f) (follow r' f')
unfolding Tracks
follow-Tracks k l n (done a, s) r' f f' (j, le, q) h =
    let (i, le', e') = h a s (j + n) in
    (i + j, omega (arith, le, le'), rw q (e' ∙ ap (λ x. ((f a s).0, ((f a s).1, x))) (omega arith)))
follow-Tracks k l n (fail e, s) r' f f' (j, le, q) h = (j, omega (arith, le), rw q refl)

send-Tracks :
    {S : Type 0} (t : Transport S) (r : Request) → Tracks 1 (t.send r) ((counted t).send r)
unfolding counted Tracks
send-Tracks t r s n =
    (1, omega arith, ap (λ x. ((t.send r s).0, ((t.send r s).1, x))) (omega arith))

notify-Tracks : {S : Type 0} (t : Transport S) → Tracks 0 t.notify (counted t).notify
unfolding counted Tracks
notify-Tracks t s n =
    (0, omega arith, ap (λ x. ((t.notify s).0, ((t.notify s).1, x))) (omega arith))

lift-Tracks : (S : Type 0) {A : Type 0} (o : Outcome A) → Tracks 0 (lift {S = S} o) (lift o)
unfolding Tracks
lift-Tracks S o s n = (0, omega arith, ap (λ x. (o, (s, x))) (omega arith))

named-Tracks :
    {S A : Type 0} (k : ℕ) (label : Text) (m : Call S A) (m' : Call (S × ℕ) A)
    → Tracks k m m'
    → Tracks k (named label m) (named label m')
unfolding Tracks
named-Tracks k label m m' h s n = let (j, le, e) = h s n in (j, le, rw e refl)

bind-Tracks :
    {S A B : Type 0} (k l : ℕ) (m : Call S A) (m' : Call (S × ℕ) A) (f : A → Call S B)
    (f' : A → Call (S × ℕ) B)
    → Tracks k m m'
    → ((a : A) → Tracks l (f a) (f' a))
    → Tracks (k + l) (m >>= f) (m' >>= f')
unfolding Tracks
bind-Tracks k l m m' f f' h g s n = follow-Tracks k l n (m s) (m' (s, n)) f f' (h s n) g

more-Tracks :
    {S A : Type 0} (k l : ℕ) (m : Call S A) (m' : Call (S × ℕ) A)
    → k ≤ l
    → Tracks k m m'
    → Tracks l m m'
unfolding Tracks
more-Tracks k l m m' le h s n = let (j, le', e) = h s n in (j, omega (arith, le, le'), e)

module _ {S : Type 0} (t : Transport S) (d : Codec) where
  fetch_page-Tracks : (c : Text) → Tracks 1 (fetch_page t d c) (fetch_page (counted t) d c)
  unfolding fetch_page
  fetch_page-Tracks c =
      bind-Tracks 1 0 _ _ _ _
        (named-Tracks 1 (codes "tools/list: ") _ _ (send-Tracks t (list_tools c)))
        λ raw. lift-Tracks S (labelled (codes "tools/list result: ") (d.read_page raw))

  go_on-Tracks :
      (k : ℕ) (next : Text) (tools : List Tool) (loop : Text → Call S (List Tool))
      (loop' : Text → Call (S × ℕ) (List Tool))
      → ((c : Text) → Tracks k (loop c) (loop' c))
      → Tracks (0 + k) (go_on next tools loop) (go_on next tools loop')
  unfolding Tracks go_on
  go_on-Tracks k [] tools loop loop' h s n =
      let (j, le, e) = lift-Tracks S (done tools) s n in (j, omega (arith, le), e)
  go_on-Tracks k (c ∷ cs) tools loop loop' h s n =
      let (j, le, e) = h (c ∷ cs) s n in (j, omega (arith, le), e)

  list_pages-Tracks :
      (k : ℕ) (c : Text) (tools : List Tool)
      → Tracks k (list_pages t d k c tools) (list_pages (counted t) d k c tools)
  unfolding list_pages
  list_pages-Tracks zero c tools = lift-Tracks S (done tools)
  list_pages-Tracks (suc k) c tools = more-Tracks (1 + (0 + k)) (suc k) _ _ (omega arith) (
      bind-Tracks 1 (0 + k) _ _ _ _ (fetch_page-Tracks c) λ page.
        go_on-Tracks k page.next_cursor (tools ++ page.tools) _ _
          λ b. list_pages-Tracks k b (tools ++ page.tools))

  handshake-Tracks : Tracks 1 (handshake t d) (handshake (counted t) d)
  unfolding handshake
  handshake-Tracks =
      bind-Tracks 1 0 _ _ _ _
        (named-Tracks 1 (codes "initialize: ") _ _ (send-Tracks t (initialize supported_protocol)))
        λ raw.
          bind-Tracks 0 0 _ _ _ _
            (lift-Tracks S (labelled (codes "initialize result: ") (d.read_version raw)))
            λ v.
              bind-Tracks 0 0 _ _ _ _ (lift-Tracks S (check_version d v))
                λ _. named-Tracks 0 (codes "initialized notify: ") _ _ (notify-Tracks t)

  discover-Tracks : Tracks (1 + max_tool_pages) (discover t d) (discover (counted t) d)
  unfolding discover
  discover-Tracks =
      bind-Tracks 1 max_tool_pages _ _ _ _ handshake-Tracks
        λ _. list_pages-Tracks max_tool_pages [] []

  -- Whatever the server answers, counting the requests does not change what discover gives, and it
  -- ends after at most 65 of them.
  pub discover-counted :
      (s : S) (n : ℕ)
      → ((discover (counted t) d (s, n)).0 ≡ (discover t d s).0)
        × ((discover (counted t) d (s, n)).1.1 ≤ 65 + n)
  unfolding Tracks
  discover-counted s n = let (j, le, e) = discover-Tracks s n in rw e (refl, omega (arith, le))
