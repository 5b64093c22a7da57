-- ===== src/Config/Validate/Channels.antt =====
-- `validateNotify` of notify.go up to the locations: the channels, their secrets, and the push
-- subscriptions.
use re_terminal_eink_signage.Base.{
  ℕ, ◌+◌, Bool, false, not, ◌&&◌, ◌||◌, Option, none, some, List, [], ◌∷◌, ltb, ◌==◌, if◌then◌else◌,
  length, Text, text, text_eq, is_empty, has_prefix, is_some,
}
use re_terminal_eink_signage.Config.Types.{
  AlertConfig, Config, Location, PushSubscription, WebPushConfig, find_location,
}
use re_terminal_eink_signage.Config.Encodings.{decodes_to}
use re_terminal_eink_signage.Config.Checks.{
  ConfigError, app_id_missing, app_secret_missing, bad_endpoint, bad_fallback_chat,
  bad_message_style, bad_p256dh, bad_subscription_auth, bad_vapid_private_key, bad_vapid_public_key,
  bad_vapid_subject, channel_twice, location_without_route, log_combined, nowhere_to_go,
  subscription_unknown_location, subscription_without_user, unknown_channel, url_empty,
  url_not_https, vapid_key_missing, reject_if, first_error, contains,
}

abbrev pub channel_lark : Text
channel_lark = text "lark"

abbrev pub channel_web_push : Text
channel_web_push = text "webpush"

abbrev pub channel_slack : Text
channel_slack = text "slack"

abbrev pub channel_log : Text
channel_log = text "log"

-- `EffectiveChannels`.
unfoldable pub effective_channels : AlertConfig → List Text
effective_channels a =
    if ltb 0 (length a.channels)
    then a.channels
    else (if not (is_empty a.webhook_url) then channel_slack ∷ [] else [])

unfoldable pub validate_vapid : WebPushConfig → Option ConfigError
validate_vapid w = first_error (
    reject_if (is_empty w.vapid_public_key || is_empty w.vapid_private_key) vapid_key_missing
    ∷ reject_if (not (decodes_to 65 w.vapid_public_key)) bad_vapid_public_key
    ∷ reject_if (not (decodes_to 32 w.vapid_private_key)) bad_vapid_private_key
    ∷ reject_if
        (not (has_prefix w.subject (text "mailto:"))
          && not (has_prefix w.subject (text "https://")))
        bad_vapid_subject
    ∷ [])

unfoldable pub validate_routes : List Location → Option ConfigError
validate_routes [] = none
validate_routes (l ∷ ls) = first_error (
    reject_if (is_empty l.lark_user_email && is_empty l.lark_chat_id) (location_without_route l.id)
    ∷ validate_routes ls
    ∷ [])

abbrev pub valid_message_style : Text → Bool
valid_message_style s =
    is_empty s
    || text_eq s (text "plain")
    || text_eq s (text "minimal")
    || text_eq s (text "detailed")

-- `url.Parse` is a parameter: the scheme and the host of a text that it accepts.
module _ (url_parse : Text → Option (Text × Text)) where
  unfoldable pub is_https : Text → Bool
  is_https v = elim (url_parse v) [
    | none ↦ false
    | some u ↦ text_eq u.0 (text "https") && not (is_empty u.1)
  ]

  unfoldable pub require_https : Text → Text → Option ConfigError
  require_https field v = first_error (
      reject_if (is_empty v) (url_empty field)
      ∷ reject_if (not (is_https v)) (url_not_https field)
      ∷ [])

  unfoldable pub validate_push_subscription : PushSubscription → Option ConfigError
  validate_push_subscription s = first_error (
      reject_if (is_empty s.username) subscription_without_user
      ∷ reject_if (not (is_https s.endpoint)) bad_endpoint
      ∷ reject_if (not (decodes_to 65 s.p256dh)) bad_p256dh
      ∷ reject_if (not (decodes_to 16 s.auth)) bad_subscription_auth
      ∷ [])

  unfoldable pub validate_lark_app : AlertConfig → List Location → Option ConfigError
  validate_lark_app a locations = first_error (
      reject_if (is_empty a.lark_app.app_id) app_id_missing
      ∷ reject_if (is_empty a.lark_app.app_secret) app_secret_missing
      ∷ (if is_empty a.lark_app.base_url
          then none
          else require_https (text "alerts.lark_app.base_url") a.lark_app.base_url)
      ∷ reject_if
          (not (is_empty a.lark_fallback_chat_id)
            && not (has_prefix a.lark_fallback_chat_id (text "oc_")))
          bad_fallback_chat
      ∷ (if not (is_empty a.lark_fallback_chat_id)
          then none
          else first_error
              (reject_if (length locations == 0) nowhere_to_go ∷ validate_routes locations ∷ []))
      ∷ [])

  -- The `switch` on one channel.
  unfoldable pub validate_channel : AlertConfig → List Location → Text → Option ConfigError
  validate_channel a locations ch =
      if text_eq ch channel_lark
      then validate_lark_app a locations
      else (if text_eq ch channel_web_push
          then validate_vapid a.webpush
          else (if text_eq ch channel_slack
              then require_https (text "alerts.webhook_url") a.webhook_url
              else (if text_eq ch channel_log
                  then reject_if (not (length a.channels == 1)) log_combined
                  else some (unknown_channel ch))))

  unfoldable pub validate_channels :
      AlertConfig → List Location → List Text → List Text → Option ConfigError
  validate_channels a locations seen [] = none
  validate_channels a locations seen (ch ∷ chs) = first_error (
      reject_if (contains ch seen) (channel_twice ch)
      ∷ validate_channel a locations ch
      ∷ validate_channels a locations (ch ∷ seen) chs
      ∷ [])

  unfoldable pub validate_subscriptions :
      List Location → ℕ → List PushSubscription → Option ConfigError
  validate_subscriptions locations i [] = none
  validate_subscriptions locations i (s ∷ ss) = first_error (
      validate_push_subscription s
      ∷ reject_if (not (is_empty s.location) && not (is_some (find_location s.location locations)))
          (subscription_unknown_location i s.location)
      ∷ validate_subscriptions locations (i + 1) ss
      ∷ [])

  unfoldable pub validate_alerts : Config → Option ConfigError
  validate_alerts c = first_error (
      reject_if (not (valid_message_style c.alerts.message_style))
        (bad_message_style c.alerts.message_style)
      ∷ validate_channels c.alerts c.locations [] c.alerts.channels
      ∷ validate_subscriptions c.locations 0 c.push_subscriptions
      ∷ [])
