-- ===== src/Jwt/Tests.antt =====
-- Runs of the token client, whose boot was at the epoch.
use cyrogopus.Prelude.{◌*◌, ◌^◌, [], none, some}
use cyrogopus.Prelude.Int.{pos}
use cyrogopus.Jwt.{BasePayload, JwtClient, DateTime}

abbrev client : JwtClient
client = record { boot_time = 0; denied_jtokens = []; seen_jtoken_ids = [] }

-- A token of a day.
abbrev payload : BasePayload
payload = record {
  expiration_time = some (pos 86400);
  not_before = none;
  issued_at = some (pos 10);
  jwt_id = "id";
}

abbrev noon : DateTime
noon = 43200 * 10 ^ 9
