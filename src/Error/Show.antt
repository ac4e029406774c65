-- ===== src/Error/Show.antt =====
-- src/error.rs: the texts of the errors, as `to_string` gives them.
use grindr_rs.Prelude.{ℕ, zero, suc, ◌+◌, ◌/◌, ◌%◌, [], ◌∷◌, ◌++◌, Text, codes, if◌then◌else◌, ltb}
use grindr_rs.Prelude.Int.{ℤ, pos, negsuc}
use package.grindr_rs.Error.{
  BlockKind, cloudflare, edge, TimeoutPhase, sending, headers, receiving, unfinished, BanKind,
  profile, device, network, underage, BanInfo, GrindrError, http, connect, timeout, auth, api,
  unauthorized, banned, rate_limited, blocked, invalid_request, session_cleared, media_too_large,
}

-- Decimal digits; twenty rounds print every 64-bit number.
digits_from : ℕ → ℕ → Text → Text
digits_from zero n acc = acc
digits_from (suc fuel) n acc =
    let rest = digits_from fuel (n / 10) ((n % 10 + 48) ∷ acc) in
    if ltb n 10 then (n + 48) ∷ acc else rest

unfoldable pub decimal : ℕ → Text
unfolding digits_from
decimal n = digits_from 20 n []

unfoldable pub show_i32 : ℤ → Text
unfolding decimal
show_i32 (pos n) = decimal n
show_i32 (negsuc n) = 45 ∷ decimal (n + 1)

pub show_block : BlockKind → Text
unfolding codes
show_block cloudflare = codes "Cloudflare"
show_block edge = codes "network edge"

pub show_phase : TimeoutPhase → Text
unfolding codes
show_phase sending = codes "the upload stopped moving"
show_phase headers = codes "no response in time"
show_phase receiving = codes "the response stopped moving"
show_phase unfinished = codes "the transfer did not finish in time"

debug_ban_kind : BanKind → Text
unfolding codes
debug_ban_kind profile = codes "Profile"
debug_ban_kind device = codes "Device"
debug_ban_kind network = codes "Network"
debug_ban_kind underage = codes "Underage"

pub show_ban_info : BanInfo → Text
unfolding codes show_i32 debug_ban_kind
show_ban_info b =
    debug_ban_kind b.kind ++ (codes " (code " ++ (show_i32 b.code ++ (codes "): " ++ b.message)))

pub show : GrindrError → Text
unfolding codes show_i32 show_block show_phase show_ban_info
show (http m) = codes "HTTP error: " ++ m
show (connect m) = codes "could not connect: " ++ m
show (timeout phase) = codes "timed out: " ++ show_phase phase
show (auth m) = codes "auth error: " ++ m
show (api code m) = codes "API error " ++ (show_i32 code ++ (codes ": " ++ m))
show (unauthorized code m) = codes "unauthorized (" ++ (show_i32 code ++ (codes "): " ++ m))
show (banned info) = codes "banned: " ++ show_ban_info info
show rate_limited = codes "rate limited"
show (blocked kind) = codes "blocked before reaching the API (" ++ (show_block kind ++ codes ")")
show (invalid_request m) = codes "invalid request: " ++ m
show session_cleared = codes "session was cleared while the request was in flight"
show (media_too_large max_bytes) =
    codes "media body exceeds " ++ (decimal max_bytes ++ codes " bytes")
