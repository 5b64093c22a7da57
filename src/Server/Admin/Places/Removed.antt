-- ===== src/Server/Admin/Places/Removed.antt =====
-- The browsers of an account that was removed.
use re_terminal_eink_signage.Base.{
  ℕ, zero, suc, ◌≡◌, sym, ap, ◌∙◌, inr, Bool, true, ◌||◌, Option, some, List, [], ◌∷◌, arith,
  keep_if, get_elem?, Text, text_eq, is_empty, equal_fold, equal_fold_sym, some_injective,
  Bool-cases, inl,
}
use re_terminal_eink_signage.Config.Types.{Config, PushSubscription}
use re_terminal_eink_signage.Config.Edits.{validated-inr, without_user}
use re_terminal_eink_signage.Config.Edits.Lookups.{
  removes_user, user_after, edit_user, user_by_username-edit_user,
}
use re_terminal_eink_signage.Server.Admin.Places.{push_subscriptions}

get_elem?-keep_if {ℓ} :
    {A : Type ℓ} (p : A → Bool) (xs : List A) (i : ℕ) (x : A)
    → get_elem? xs i ≡ some x
    → p x ≡ true
    → (j : ℕ) × (get_elem? (keep_if p xs) j ≡ some x)
get_elem?-keep_if p [] i x h k = cc
get_elem?-keep_if p (y ∷ ys) zero x h k = let kept = ap p (some_injective h) ∙ k in (0, rw kept h)
get_elem?-keep_if p (y ∷ ys) (suc i) x h k =
    let (j, at) = get_elem?-keep_if p ys i x h k in
    elim (Bool-cases (p y)) [ inl e ↦ (suc j, rw e at) | inr e ↦ (j, rw e at) ]

-- After the removal of an account every browser that it had subscribed goes on being sent the alerts
-- of the locations that it chose, also if the account was limited.
pub removed_account-notified :
    (load_location : Text → Bool) (url_parse : Text → Option (Text × Text)) (c next : Config)
    (name location : Text) (i : ℕ) (sub : PushSubscription)
    → without_user load_location url_parse name c ≡ inr next
    → get_elem? c.push_subscriptions i ≡ some sub
    → equal_fold sub.username name ≡ true
    → (is_empty sub.location || text_eq sub.location location) ≡ true
    → (j : ℕ) × (get_elem? (push_subscriptions location next) j ≡ some sub)
unfolding push_subscriptions without_user edit_user user_after
removed_account-notified load_location url_parse c next name location i sub h at own chosen =
    let (same, valid) = validated-inr load_location url_parse _ next h in
    let own' = equal_fold_sym name sub.username ∙ own in
    let after =
      user_by_username-edit_user load_location url_parse (removes_user name) c next sub.username
        h in
    let gone = rw own' at after in
    get_elem?-keep_if _ next.push_subscriptions i sub
      (ap (λ (d : Config). get_elem? d.push_subscriptions i) (sym same) ∙ at)
      (rw gone (ground (arith, chosen)))
