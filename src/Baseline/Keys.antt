-- ===== src/Baseline/Keys.antt =====
-- The keys of the baseline.
use keelix.Prelude.{◌≡◌, ◌≢◌, true, ◌&&◌, &&_iff, [], ◌∷◌, ◌++◌, All, arith}
use keelix.Text.{Text, text_eq}
use keelix.Text.Laws.{text_eq_iff}
use keelix.Baseline.{key_of}

-- The text has no bar.
abbrev pub HasNoBar : Text → Type 0
HasNoBar s = All (λ c. c ≢ b'|') s

split_bar :
    (s t x y : Text)
    → HasNoBar s
    → HasNoBar t
    → text_eq (s ++ b'|' ∷ x) (t ++ b'|' ∷ y) ≡ true
    → (text_eq s t && text_eq x y) ≡ true
unfolding text_eq
split_bar [] [] x y hs ht e = ground (arith, e)
split_bar [] (d ∷ t) x y hs ht e = ground (arith, e)
split_bar (c ∷ s) [] x y hs ht e = ground (arith, e)
split_bar (c ∷ s) (d ∷ t) x y (h, hs) (k, ht) e = ground (arith, e, split_bar s t x y hs ht)

split_eq :
    (s t x y : Text) → HasNoBar s → HasNoBar t → s ++ b'|' ∷ x ≡ t ++ b'|' ∷ y → (s ≡ t) × (x ≡ y)
split_eq s t x y hs ht e =
    let both = (&&_iff _ _).0 (split_bar s t x y hs ht ((text_eq_iff _ _).1 e)) in
    ((text_eq_iff s t).0 both.0, (text_eq_iff x y).0 both.1)

-- For clients and servers whose names have no bar, two tools with the same key are the same.
pub key_of-injective :
    (client client' server server' tool tool' : Text)
    → HasNoBar client
    → HasNoBar client'
    → HasNoBar server
    → HasNoBar server'
    → key_of client server tool ≡ key_of client' server' tool'
    → (client ≡ client') × (server ≡ server') × (tool ≡ tool')
unfolding key_of
key_of-injective client client' server server' tool tool' c c' s s' e =
    let (is_client, rest) = split_eq client client' _ _ c c' e in
    let (is_server, is_tool) = split_eq server server' tool tool' s s' rest in
    (is_client, is_server, is_tool)
