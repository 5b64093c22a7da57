-- ===== src/Server/Devices/Synced.antt =====
-- What a display shows after a request.
use re_terminal_eink_signage.Base.{
  ℕ, ◌≡◌, refl, inl, inr, Bool, true, false, not, ◌&&◌, Option, none, some, List, arith, ◌==◌,
  Bool-cases, if◌then◌else◌, Text, text_eq, is_empty,
}
use re_terminal_eink_signage.Cache.{Entry, get}
use re_terminal_eink_signage.Config.Types.{Config}
use re_terminal_eink_signage.Config.Wake.{Zone}
use re_terminal_eink_signage.Render.Payload.{Payload}
use re_terminal_eink_signage.Telemetry.{Report}
use re_terminal_eink_signage.Server.Devices.{
  Request, Response, Server, verify, frame, handle_display,
}

-- A display's frame, with the ETag that came with it. A 200 brings a new one; a 304, another status
-- or a lost answer leaves it.
abbrev pub Shown : Type 0
Shown = Text × List ℕ

unfoldable pub shown_after : Option Response → Shown → Shown
shown_after none shown = shown
shown_after (some r) shown = if r.status == 200 then (r.etag, r.content) else shown

frame-shown :
    (cfg : Config) (e : Entry) (p : Payload) (next_wake : ℕ) (forced : Bool) (shown : Shown)
    → e.payload ≡ some p
    → (text_eq shown.0 e.etag ≡ true → shown ≡ (e.etag, p.bytes))
    → shown_after (frame cfg e next_wake shown.0 forced) shown ≡ (e.etag, p.bytes)
unfolding shown_after
frame-shown cfg e p next_wake forced shown has current =
    elim (Bool-cases (not forced && not (is_empty shown.0) && text_eq shown.0 e.etag)) [
      | inl same ↦ rw (frame, same) (current (ground (arith, same)))
      | inr other ↦ elim (Bool-cases (is_empty cfg.firmware.version)) [
        | inl silent ↦ rw (frame, other, has, silent) refl
        | inr advertised ↦ rw (frame, other, has, advertised) refl
      ]
    ]

module _ (sha256 : Text → List ℕ) (load_zone : Text → Zone) (decode : Text → Option Report) where
  -- After a request that `verify` passes, a display shows the frame of its cache entry, if the entry
  -- has a frame and an ETag, the display sends the ETag of what it shows, and that ETag, when it is the
  -- entry's, came with the entry's frame; whether or not it is told to repaint.
  pub handle_display-shown :
      (r : Request) (now : ℕ) (s : Server) (e : Entry) (p : Payload) (shown : Shown)
      → verify sha256 s.auth r.device r.authorization ≡ true
      → get r.device s.cache ≡ some e
      → is_empty e.etag ≡ false
      → e.payload ≡ some p
      → r.if_none_match ≡ shown.0
      → (text_eq shown.0 e.etag ≡ true → shown ≡ (e.etag, p.bytes))
      → shown_after (handle_display sha256 load_zone decode r now s).0 shown ≡ (e.etag, p.bytes)
  unfolding handle_display
  handle_display-shown r now s e p shown ok cached named has sent current =
      rw (handle_display, ok, cached, named, sent) (frame-shown s.cfg e p _ _ shown has current)
