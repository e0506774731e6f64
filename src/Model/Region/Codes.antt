-- ===== src/Model/Region/Codes.antt =====
-- The airport codes and the country codes of `Proxy::region` (core/src/model.rs).
use sub_hub.Common.{Text, lit, List, [], ◌∷◌}

unfoldable pub code3_table : List (Text × Text)
code3_table =
    (lit "hkg", lit "HK")
    ∷ (lit "tpe", lit "TW")
    ∷ (lit "taipei", lit "TW")
    ∷ (lit "sin", lit "SG")
    ∷ (lit "nrt", lit "JP")
    ∷ (lit "tyo", lit "JP")
    ∷ (lit "hnd", lit "JP")
    ∷ (lit "kix", lit "JP")
    ∷ (lit "icn", lit "KR")
    ∷ (lit "lax", lit "US")
    ∷ (lit "sfo", lit "US")
    ∷ (lit "jfk", lit "US")
    ∷ (lit "ord", lit "US")
    ∷ (lit "fra", lit "DE")
    ∷ (lit "ber", lit "DE")
    ∷ (lit "mun", lit "DE")
    ∷ (lit "par", lit "FR")
    ∷ (lit "cdg", lit "FR")
    ∷ (lit "lon", lit "GB")
    ∷ (lit "lhr", lit "GB")
    ∷ (lit "ams", lit "NL")
    ∷ (lit "rtm", lit "NL")
    ∷ (lit "yyz", lit "CA")
    ∷ (lit "syd", lit "AU")
    ∷ (lit "mel", lit "AU")
    ∷ (lit "mow", lit "RU")
    ∷ (lit "led", lit "RU")
    ∷ (lit "svx", lit "RU")
    ∷ (lit "ist", lit "TR")
    ∷ (lit "kul", lit "MY")
    ∷ (lit "bkk", lit "TH")
    ∷ (lit "del", lit "IN")
    ∷ (lit "bom", lit "IN")
    ∷ (lit "dxb", lit "AE")
    ∷ (lit "doh", lit "AE")
    ∷ (lit "svo", lit "RU")
    ∷ (lit "pek", lit "CN")
    ∷ (lit "sha", lit "CN")
    ∷ (lit "ctu", lit "CN")
    ∷ (lit "can", lit "CN")
    ∷ (lit "gru", lit "BR")
    ∷ (lit "mad", lit "ES")
    ∷ (lit "bcn", lit "ES")
    ∷ (lit "fco", lit "IT")
    ∷ (lit "zrh", lit "CH")
    ∷ (lit "vie", lit "AT")
    ∷ (lit "bru", lit "BE")
    ∷ (lit "cph", lit "DK")
    ∷ (lit "osl", lit "NO")
    ∷ (lit "arn", lit "SE")
    ∷ (lit "hel", lit "FI")
    ∷ (lit "waw", lit "PL")
    ∷ (lit "prg", lit "CZ")
    ∷ (lit "bud", lit "HU")
    ∷ (lit "otp", lit "RO")
    ∷ (lit "dub", lit "IE")
    ∷ (lit "lis", lit "PT")
    ∷ (lit "ath", lit "GR")
    ∷ (lit "gva", lit "CH")
    ∷ (lit "sxf", lit "DE")
    ∷ (lit "pmi", lit "ES")
    ∷ (lit "agp", lit "ES")
    ∷ []

unfoldable pub code_table : List (Text × Text)
code_table =
    (lit "hk", lit "HK")
    ∷ (lit "tw", lit "TW")
    ∷ (lit "sg", lit "SG")
    ∷ (lit "jp", lit "JP")
    ∷ (lit "kr", lit "KR")
    ∷ (lit "us", lit "US")
    ∷ (lit "de", lit "DE")
    ∷ (lit "fr", lit "FR")
    ∷ (lit "uk", lit "GB")
    ∷ (lit "gb", lit "GB")
    ∷ (lit "nl", lit "NL")
    ∷ (lit "ru", lit "RU")
    ∷ (lit "ca", lit "CA")
    ∷ (lit "au", lit "AU")
    ∷ (lit "my", lit "MY")
    ∷ (lit "tr", lit "TR")
    ∷ (lit "ar", lit "AR")
    ∷ (lit "th", lit "TH")
    ∷ (lit "vn", lit "VN")
    ∷ (lit "ph", lit "PH")
    ∷ (lit "id", lit "ID")
    ∷ (lit "br", lit "BR")
    ∷ (lit "mx", lit "MX")
    ∷ (lit "es", lit "ES")
    ∷ (lit "it", lit "IT")
    ∷ (lit "ua", lit "UA")
    ∷ (lit "kz", lit "KZ")
    ∷ (lit "uz", lit "UZ")
    ∷ (lit "ir", lit "IR")
    ∷ (lit "iq", lit "IQ")
    ∷ (lit "eg", lit "EG")
    ∷ (lit "sa", lit "SA")
    ∷ (lit "ae", lit "AE")
    ∷ (lit "za", lit "ZA")
    ∷ (lit "cl", lit "CL")
    ∷ (lit "co", lit "CO")
    ∷ (lit "pl", lit "PL")
    ∷ (lit "se", lit "SE")
    ∷ (lit "no", lit "NO")
    ∷ (lit "fi", lit "FI")
    ∷ (lit "dk", lit "DK")
    ∷ (lit "ch", lit "CH")
    ∷ (lit "at", lit "AT")
    ∷ (lit "be", lit "BE")
    ∷ (lit "pt", lit "PT")
    ∷ (lit "gr", lit "GR")
    ∷ (lit "nz", lit "NZ")
    ∷ (lit "mn", lit "MN")
    ∷ (lit "kh", lit "KH")
    ∷ (lit "mm", lit "MM")
    ∷ (lit "la", lit "LA")
    ∷ (lit "np", lit "NP")
    ∷ (lit "pk", lit "PK")
    ∷ (lit "bd", lit "BD")
    ∷ (lit "lk", lit "LK")
    ∷ (lit "ie", lit "IE")
    ∷ (lit "ro", lit "RO")
    ∷ (lit "hu", lit "HU")
    ∷ (lit "lu", lit "LU")
    ∷ (lit "hr", lit "HR")
    ∷ (lit "is", lit "IS")
    ∷ (lit "il", lit "IL")
    ∷ (lit "ee", lit "EE")
    ∷ (lit "lv", lit "LV")
    ∷ (lit "bg", lit "BG")
    ∷ (lit "sk", lit "SK")
    ∷ (lit "cz", lit "CZ")
    ∷ (lit "lt", lit "LT")
    ∷ (lit "cr", lit "CR")
    ∷ (lit "cy", lit "CY")
    ∷ (lit "ge", lit "GE")
    ∷ (lit "jo", lit "JO")
    ∷ (lit "kg", lit "KG")
    ∷ (lit "ma", lit "MA")
    ∷ (lit "mt", lit "MT")
    ∷ (lit "pe", lit "PE")
    ∷ (lit "pr", lit "PR")
    ∷ (lit "py", lit "PY")
    ∷ (lit "am", lit "AM")
    ∷ (lit "mo", lit "MO")
    ∷ (lit "ec", lit "EC")
    ∷ (lit "dz", lit "DZ")
    ∷ (lit "gt", lit "GT")
    ∷ (lit "gh", lit "GH")
    ∷ (lit "ke", lit "KE")
    ∷ (lit "kw", lit "KW")
    ∷ (lit "ng", lit "NG")
    ∷ (lit "ni", lit "NI")
    ∷ (lit "pa", lit "PA")
    ∷ (lit "uy", lit "UY")
    ∷ (lit "cn", lit "CN")
    ∷ []
