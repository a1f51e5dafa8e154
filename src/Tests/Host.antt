-- ===== src/Tests/Host.antt =====
-- The theorem on the host id at a link as Linux writes it.
use log_reader.Prelude.{◌≡◌, refl, [], ◌∷◌, some, none}
use log_reader.Host.{HostAnswers, IsPlain, net_link, host_ids, host_ids-net_link}

plain : IsPlain "4026531992"
plain = (
  refl,
  refl,
  (
    refl,
    refl,
    (
      refl,
      refl,
      (
        refl,
        refl,
        (refl, refl, (refl, refl, (refl, refl, (refl, refl, (refl, refl, (refl, refl, tt)))))),
      ),
    ),
  ),
)

abbrev unreadable : HostAnswers
unreadable = record { hostname = none; link = none }

host_ids-net_link_example :
    host_ids
      ((record { hostname = some "gateway"; link = some (net_link "4026531992") })
        ∷ unreadable
        ∷ [])
      none
    ≡ "gateway_4026531992" ∷ "gateway_4026531992" ∷ []
host_ids-net_link_example = host_ids-net_link "gateway" "4026531992" (unreadable ∷ []) plain
