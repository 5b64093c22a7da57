-- ===== src/Server/Reset/Links.antt =====
-- The link of a mail after a password that is too short.
use re_terminal_eink_signage.Base.{◌≡◌, refl, true, some, [], ltb, length, Text}
use re_terminal_eink_signage.Auth.Tokens.{Reset, take}
use re_terminal_eink_signage.Auth.Tokens.SingleUse.{taken-none, lookup-none}
use re_terminal_eink_signage.Server.Site.{World, Moment, Site, asks_again}
use re_terminal_eink_signage.Server.Reset.{
  handle_reset_with_token_page, handle_reset_with_token_submit,
}

module _ (w : World) (m : Moment) (token password : Text) (s : Site) (rt : Reset)
    (enabled : s.cfg.auth.password_reset.enabled ≡ true)
    (found : (take m.now token s.reset_tokens).0 ≡ some rt)
    (short : ltb (length password) 8 ≡ true) where
  -- Where the reset by mail is enabled: a password of fewer than 8 bytes that is sent with a link that
  -- is valid spends the link. The answer is the form again, with the link's token, but its next
  -- submission is refused, whatever the password, and so is the link.
  pub short_password_spends_link :
      (later : Moment) (again : Text)
      → ((handle_reset_with_token_submit w m token password s).0 ≡ asks_again token)
        × ((handle_reset_with_token_submit w later token again
              (handle_reset_with_token_submit w m token password s).1).0
            ≡ asks_again [])
        × (handle_reset_with_token_page w later token
              (handle_reset_with_token_submit w m token password s).1
            ≡ asks_again [])
  unfolding handle_reset_with_token_submit handle_reset_with_token_page
  short_password_spends_link later again =
      let left = (take m.now token s.reset_tokens).1 in
      let (no_look, no_take) =
        lookup-none token later.now left (taken-none m.now token s.reset_tokens) in
      (
        rw (handle_reset_with_token_submit, enabled, found, short) refl,
        rw (handle_reset_with_token_submit, enabled, found, short)
            (rw (handle_reset_with_token_submit, enabled, no_take) refl),
        rw (handle_reset_with_token_submit, enabled, found, short)
            (rw (handle_reset_with_token_page, enabled, no_look) refl),
      )
