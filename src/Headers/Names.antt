-- ===== src/Headers/Names.antt =====
-- src/headers.rs: the headers of a request that is authorized.
use grindr_rs.Prelude.{Text, Option, none, codes, some, [], ◌∷◌, ◌++◌, List, ◌≡◌, arith}
use grindr_rs.Error.{ok}
use grindr_rs.Device.{DeviceInfo}
use package.grindr_rs.Headers.{
  Option, optional_header, header, HeaderLib, Header, build_device_info_header, build,
}

abbrev pub authorized_headers : DeviceInfo → Text → Text → Text → List Header
authorized_headers device user_agent authorization roles =
    (codes "authorization", authorization)
    ∷ (codes "l-time-zone", device.timezone)
    ∷ (codes "l-grindr-roles", roles)
    ∷ (codes "l-device-info", build_device_info_header device)
    ∷ (codes "accept", codes "application/json")
    ∷ (codes "user-agent", user_agent)
    ∷ (codes "l-locale", codes "en_US")
    ∷ (codes "accept-language", codes "en-US")
    ∷ (codes "accept-encoding", codes "gzip")
    ∷ []

pub build-authorized :
    (lib : HeaderLib) (device : DeviceInfo) (user_agent authorization roles : Text)
    {items : List Header}
    → build lib device user_agent (some authorization) (some roles) ≡ ok items
    → items ≡ authorized_headers device user_agent authorization roles
unfolding build header optional_header
build-authorized lib device user_agent authorization roles h = ground arith

abbrev pub optional : Text → Option Text → List Header
optional name none = []
optional name (some value) = (name, value) ∷ []

-- The headers of a request, with what it carries of the session.
abbrev pub built_headers : DeviceInfo → Text → Option Text → Option Text → List Header
built_headers device user_agent authorization roles =
    optional (codes "authorization") authorization
    ++ ((codes "l-time-zone", device.timezone)
        ∷ (optional (codes "l-grindr-roles") roles
            ++ ((codes "l-device-info", build_device_info_header device)
                ∷ (codes "accept", codes "application/json")
                ∷ (codes "user-agent", user_agent)
                ∷ (codes "l-locale", codes "en_US")
                ∷ (codes "accept-language", codes "en-US")
                ∷ (codes "accept-encoding", codes "gzip")
                ∷ [])))

pub build-built :
    (lib : HeaderLib) (device : DeviceInfo) (user_agent : Text) (authorization roles : Option Text)
    {items : List Header}
    → build lib device user_agent authorization roles ≡ ok items
    → items ≡ built_headers device user_agent authorization roles
unfolding build header optional_header
build-built lib device user_agent none none h = ground arith
build-built lib device user_agent none (some roles) h = ground arith
build-built lib device user_agent (some authorization) none h = ground arith
build-built lib device user_agent (some authorization) (some roles) h = ground arith
