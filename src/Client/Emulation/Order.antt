-- ===== src/Client/Emulation/Order.antt =====
-- src/client.rs `OKHTTP_WS_HEADER_ORDER`, src/headers.rs and src/ws.rs: the headers of an upgrade.
use grindr_rs.Prelude.{Bool, true, false, some, List, Text, codes, text_eq, any, All, ◌≡◌, refl}
use grindr_rs.Error.{ok}
use grindr_rs.Device.{DeviceInfo}
use grindr_rs.Headers.{HeaderLib, Header, build}
use grindr_rs.Headers.Names.{authorized_headers, build-authorized}
use grindr_rs.Ws.Connect.{upgrade}
use package.grindr_rs.Client.Emulation.{okhttp_ws_header_order}

-- The place of a header is in the order that the library is given.
abbrev pub Placed : Header → Type 0
Placed h = any (text_eq h.0) okhttp_ws_header_order ≡ true

placed :
    (device : DeviceInfo) (user_agent authorization roles : Text) (offer_deflate : Bool)
    → All Placed
        (upgrade (authorized_headers device user_agent authorization roles) offer_deflate).headers
unfolding upgrade codes text_eq
placed device user_agent authorization roles true =
    (refl, (refl, (refl, (refl, (refl, (refl, (refl, (refl, (refl, (refl, tt))))))))))
placed device user_agent authorization roles false =
    (refl, (refl, (refl, (refl, (refl, (refl, (refl, (refl, (refl, tt)))))))))

-- Each header that a request for a websocket sets, with or without the offer of the extension, has its
-- place in the header order of the websocket client.
pub upgrade-Placed :
    (lib : HeaderLib) (device : DeviceInfo) (user_agent authorization roles : Text)
    {items : List Header} (offer_deflate : Bool)
    → build lib device user_agent (some authorization) (some roles) ≡ ok items
    → All Placed (upgrade items offer_deflate).headers
upgrade-Placed lib device user_agent authorization roles offer_deflate built =
    rw (build-authorized lib device user_agent authorization roles built)
      (placed device user_agent authorization roles offer_deflate)
