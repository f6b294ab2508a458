-- ===== src/Mcp/Client/Pages.antt =====
-- The listing of tools against what a server serves.
use keelix.Prelude.{
  ℕ, zero, suc, ◌<◌, ◌≡◌, refl, ◌∙◌, ap, sym, List, [], ◌∷◌, ◌++◌, take, length, arith,
}
use mathlib.Core.List.{append_assoc, append-nil}
use keelix.Text.{Text}
use keelix.Outcome.{done, fail}
use keelix.Mcp.Client.{
  Tool, Page, Transport, Codec, fetch_page, go_on, list_pages, handshake, discover, max_tool_pages,
}

abbrev pub all_tools : List Page → List Tool
all_tools [] = []
all_tools (p ∷ ps) = p.tools ++ all_tools ps

take_empty : (n : ℕ) → take {A = Page} n [] ≡ []
take_empty zero = refl
take_empty (suc n) = refl

module _ {S : Type 0} (t : Transport S) (d : Codec) where
  -- From a cursor and a state of the world, the server serves these pages and then is done.
  pub data Serves : Text → S → List Page → Type 0 where
    last :
        {c : Text} {s s' : S} {p : Page}
        → fetch_page t d c s ≡ (done p, s')
        → p.next_cursor ≡ []
        → Serves c s (p ∷ [])
    more :
        {c : Text} {s s' : S} {p : Page} {b : ℕ} {bs : Text} {ps : List Page}
        → fetch_page t d c s ≡ (done p, s')
        → p.next_cursor ≡ b ∷ bs
        → Serves (b ∷ bs) s' ps
        → Serves c s (p ∷ ps)

  -- The server serves these pages and then a request for the next one fails.
  pub data Breaks (e : Text) : Text → S → List Page → Type 0 where
    now : {c : Text} {s s' : S} → fetch_page t d c s ≡ (fail e, s') → Breaks e c s []
    later :
        {c : Text} {s s' : S} {p : Page} {b : ℕ} {bs : Text} {ps : List Page}
        → fetch_page t d c s ≡ (done p, s')
        → p.next_cursor ≡ b ∷ bs
        → Breaks e (b ∷ bs) s' ps
        → Breaks e c s (p ∷ ps)

  list_pages-Serves :
      (n : ℕ) (c : Text) (tools : List Tool) (s : S) (ps : List Page)
      → Serves c s ps
      → (list_pages t d n c tools s).0 ≡ done (tools ++ all_tools (take n ps))
  unfolding list_pages go_on
  list_pages-Serves zero c tools s ps h = ap done (sym (append-nil tools))
  list_pages-Serves (suc n) c tools s [] h = elim h [ ]
  list_pages-Serves (suc n) c tools s (p ∷ ps) (last f e) =
      rw (f, e)
        (ap (λ z. done (tools ++ z))
          (sym (append-nil p.tools) ∙ ap (λ z. p.tools ++ all_tools z) (sym (take_empty n))))
  list_pages-Serves (suc n) c tools s (p ∷ ps) (more f e h) =
      rw (f, e)
        (list_pages-Serves n _ (tools ++ p.tools) _ ps h
          ∙ ap done (append_assoc tools p.tools (all_tools (take n ps))))

  list_pages-Breaks :
      (e : Text) (n : ℕ) (c : Text) (tools : List Tool) (s : S) (ps : List Page)
      → Breaks e c s ps
      → length ps < n
      → (list_pages t d n c tools s).0 ≡ fail e
  unfolding list_pages go_on
  list_pages-Breaks e zero c tools s ps h lt = absurd (omega (arith, lt))
  list_pages-Breaks e (suc n) c tools s [] (now f) lt = rw f refl
  list_pages-Breaks e (suc n) c tools s (p ∷ ps) (later f g h) lt =
      rw (f, g) (list_pages-Breaks e n _ (tools ++ p.tools) _ ps h (omega (arith, lt)))

  -- After a handshake, discover gives the tools of the pages that the server serves, in their
  -- order, of the first 64 pages if there are more.
  pub discover-Serves :
      (s s' : S) (ps : List Page)
      → handshake t d s ≡ (done tt, s')
      → Serves [] s' ps
      → (discover t d s).0 ≡ done (all_tools (take max_tool_pages ps))
  unfolding discover
  discover-Serves s s' ps hs h = rw hs (list_pages-Serves max_tool_pages [] [] s' ps h)

  -- After a handshake, where a page among the first 64 cannot be fetched, discover fails with that
  -- error, whatever tools the pages before it had.
  pub discover-Breaks :
      (s s' : S) (ps : List Page) (e : Text)
      → handshake t d s ≡ (done tt, s')
      → Breaks e [] s' ps
      → length ps < max_tool_pages
      → (discover t d s).0 ≡ fail e
  unfolding discover
  discover-Breaks s s' ps e hs h lt = rw hs (list_pages-Breaks e max_tool_pages [] [] s' ps h lt)
