-- ===== src/Checks/Kubelet/Flags.antt =====
-- internal/checks/firewall/fw006.go: the last value of a flag counts.
use keelix.Prelude.{List, [], ◌∷◌, ◌++◌, map, none, ◌≡◌, refl, ap, ◌∙◌}
use keelix.Text.{Text, codes, to_lower}
use keelix.Checks.Kubelet.{
  KubeletFlags, flag_step, flag_loop, flags_reason, unwrap_arg, kubelet_anon_auth,
}

abbrev denial : Text
denial = codes "--anonymous-auth=false"

-- The last step of the loop sees the last argument, in some state.
flag_loop-last :
    (args : List Text) (a : Text) (k : KubeletFlags)
    → (k' : KubeletFlags) × (flag_loop (args ++ a ∷ []) k ≡ flag_step a [] k')
unfolding flag_loop
flag_loop-last [] a k = (k, refl)
flag_loop-last (b ∷ args) a k = flag_loop-last args a (flag_step b (args ++ a ∷ []) k)

map-append_one :
    (g : Text → Text) (xs : List Text) (x : Text) → map g (xs ++ x ∷ []) ≡ map g xs ++ g x ∷ []
map-append_one g [] x = refl
map-append_one g (y ∷ xs) x = ap (λ zs. g y ∷ zs) (map-append_one g xs x)

unwrap_arg-denial : unwrap_arg denial ≡ denial
unfolding unwrap_arg
unwrap_arg-denial = refl

denied : (k : KubeletFlags) → flags_reason (flag_step denial [] k) ≡ none
unfolding flags_reason flag_step to_lower
denied k = refl

-- However a kubelet is started, the check does not report it where the last argument turns
-- anonymous access off.
kubelet_anon_auth-denial :
    (args : List Text) → kubelet_anon_auth (args ++ codes "--anonymous-auth=false" ∷ []) ≡ none
unfolding kubelet_anon_auth
kubelet_anon_auth-denial args =
    let start : KubeletFlags = record { anonymous = []; mode = none } in
    let (k, last) = flag_loop-last (map unwrap_arg args) denial start in
    ap (λ z. flags_reason (flag_loop z start))
      (map-append_one unwrap_arg args denial
        ∙ ap (λ z. map unwrap_arg args ++ z ∷ []) unwrap_arg-denial)
    ∙ (ap flags_reason last ∙ denied k)
