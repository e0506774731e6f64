-- ===== src/Model/Region/Names.antt =====
-- The country and city names of `Proxy::region` (core/src/model.rs), in the order of its table.
use sub_hub.Common.{Text, lit, List, [], ◌∷◌}

-- The first half of `NAME_TABLE`.
unfoldable pub name_table_head : List (Text × Text)
name_table_head =
    (lit "hongkong", lit "HK")
    ∷ (lit "hong kong", lit "HK")
    ∷ (lit "香港", lit "HK")
    ∷ (lit "taiwan", lit "TW")
    ∷ (lit "台湾", lit "TW")
    ∷ (lit "臺灣", lit "TW")
    ∷ (lit "singapore", lit "SG")
    ∷ (lit "新加坡", lit "SG")
    ∷ (lit "狮城", lit "SG")
    ∷ (lit "japan", lit "JP")
    ∷ (lit "日本", lit "JP")
    ∷ (lit "tokyo", lit "JP")
    ∷ (lit "东京", lit "JP")
    ∷ (lit "osaka", lit "JP")
    ∷ (lit "大阪", lit "JP")
    ∷ (lit "korea", lit "KR")
    ∷ (lit "韩国", lit "KR")
    ∷ (lit "韓國", lit "KR")
    ∷ (lit "seoul", lit "KR")
    ∷ (lit "首尔", lit "KR")
    ∷ (lit "首爾", lit "KR")
    ∷ (lit "usa", lit "US")
    ∷ (lit "united states", lit "US")
    ∷ (lit "america", lit "US")
    ∷ (lit "美国", lit "US")
    ∷ (lit "美國", lit "US")
    ∷ (lit "los angeles", lit "US")
    ∷ (lit "germany", lit "DE")
    ∷ (lit "德国", lit "DE")
    ∷ (lit "deutschland", lit "DE")
    ∷ (lit "france", lit "FR")
    ∷ (lit "法国", lit "FR")
    ∷ (lit "法國", lit "FR")
    ∷ (lit "français", lit "FR")
    ∷ (lit "britain", lit "GB")
    ∷ (lit "英国", lit "GB")
    ∷ (lit "英國", lit "GB")
    ∷ (lit "united kingdom", lit "GB")
    ∷ (lit "netherlands", lit "NL")
    ∷ (lit "荷兰", lit "NL")
    ∷ (lit "holland", lit "NL")
    ∷ (lit "nederland", lit "NL")
    ∷ (lit "russia", lit "RU")
    ∷ (lit "俄罗斯", lit "RU")
    ∷ (lit "俄羅斯", lit "RU")
    ∷ (lit "rossiya", lit "RU")
    ∷ (lit "canada", lit "CA")
    ∷ (lit "加拿大", lit "CA")
    ∷ (lit "australia", lit "AU")
    ∷ (lit "澳大利亚", lit "AU")
    ∷ (lit "澳洲", lit "AU")
    ∷ (lit "malaysia", lit "MY")
    ∷ (lit "马来西亚", lit "MY")
    ∷ (lit "大马", lit "MY")
    ∷ (lit "turkey", lit "TR")
    ∷ (lit "土耳其", lit "TR")
    ∷ (lit "argentina", lit "AR")
    ∷ (lit "阿根廷", lit "AR")
    ∷ (lit "thailand", lit "TH")
    ∷ (lit "泰国", lit "TH")
    ∷ (lit "india", lit "IN")
    ∷ (lit "印度", lit "IN")
    ∷ (lit "vietnam", lit "VN")
    ∷ (lit "越南", lit "VN")
    ∷ (lit "philippines", lit "PH")
    ∷ (lit "菲律宾", lit "PH")
    ∷ (lit "indonesia", lit "ID")
    ∷ (lit "印尼", lit "ID")
    ∷ (lit "brazil", lit "BR")
    ∷ (lit "巴西", lit "BR")
    ∷ (lit "mexico", lit "MX")
    ∷ (lit "墨西哥", lit "MX")
    ∷ (lit "spain", lit "ES")
    ∷ (lit "西班牙", lit "ES")
    ∷ (lit "italy", lit "IT")
    ∷ (lit "意大利", lit "IT")
    ∷ (lit "ukraine", lit "UA")
    ∷ (lit "乌克兰", lit "UA")
    ∷ (lit "kazakhstan", lit "KZ")
    ∷ (lit "哈萨克斯坦", lit "KZ")
    ∷ (lit "uzbekistan", lit "UZ")
    ∷ (lit "乌兹别克", lit "UZ")
    ∷ (lit "iran", lit "IR")
    ∷ (lit "伊朗", lit "IR")
    ∷ (lit "iraq", lit "IQ")
    ∷ (lit "伊拉克", lit "IQ")
    ∷ (lit "egypt", lit "EG")
    ∷ (lit "埃及", lit "EG")
    ∷ (lit "saudi", lit "SA")
    ∷ (lit "沙特", lit "SA")
    ∷ (lit "uae", lit "AE")
    ∷ (lit "阿联酋", lit "AE")
    ∷ (lit "迪拜", lit "AE")
    ∷ (lit "south africa", lit "ZA")
    ∷ (lit "南非", lit "ZA")
    ∷ (lit "chile", lit "CL")
    ∷ (lit "智利", lit "CL")
    ∷ (lit "colombia", lit "CO")
    ∷ (lit "哥伦比亚", lit "CO")
    ∷ (lit "poland", lit "PL")
    ∷ (lit "波兰", lit "PL")
    ∷ (lit "sweden", lit "SE")
    ∷ (lit "瑞典", lit "SE")
    ∷ (lit "norway", lit "NO")
    ∷ []

-- The second half of `NAME_TABLE`.
unfoldable pub name_table_rest : List (Text × Text)
name_table_rest =
    (lit "挪威", lit "NO")
    ∷ (lit "finland", lit "FI")
    ∷ (lit "芬兰", lit "FI")
    ∷ (lit "denmark", lit "DK")
    ∷ (lit "丹麦", lit "DK")
    ∷ (lit "switzerland", lit "CH")
    ∷ (lit "瑞士", lit "CH")
    ∷ (lit "austria", lit "AT")
    ∷ (lit "奥地利", lit "AT")
    ∷ (lit "belgium", lit "BE")
    ∷ (lit "比利时", lit "BE")
    ∷ (lit "portugal", lit "PT")
    ∷ (lit "葡萄牙", lit "PT")
    ∷ (lit "greece", lit "GR")
    ∷ (lit "希腊", lit "GR")
    ∷ (lit "new zealand", lit "NZ")
    ∷ (lit "新西兰", lit "NZ")
    ∷ (lit "mongolia", lit "MN")
    ∷ (lit "蒙古", lit "MN")
    ∷ (lit "cambodia", lit "KH")
    ∷ (lit "柬埔寨", lit "KH")
    ∷ (lit "myanmar", lit "MM")
    ∷ (lit "缅甸", lit "MM")
    ∷ (lit "laos", lit "LA")
    ∷ (lit "老挝", lit "LA")
    ∷ (lit "nepal", lit "NP")
    ∷ (lit "尼泊尔", lit "NP")
    ∷ (lit "pakistan", lit "PK")
    ∷ (lit "巴基斯坦", lit "PK")
    ∷ (lit "bangladesh", lit "BD")
    ∷ (lit "孟加拉", lit "BD")
    ∷ (lit "sri lanka", lit "LK")
    ∷ (lit "斯里兰卡", lit "LK")
    ∷ (lit "ireland", lit "IE")
    ∷ (lit "爱尔兰", lit "IE")
    ∷ (lit "romania", lit "RO")
    ∷ (lit "罗马尼亚", lit "RO")
    ∷ (lit "hungary", lit "HU")
    ∷ (lit "匈牙利", lit "HU")
    ∷ (lit "luxembourg", lit "LU")
    ∷ (lit "卢森堡", lit "LU")
    ∷ (lit "croatia", lit "HR")
    ∷ (lit "克罗地亚", lit "HR")
    ∷ (lit "iceland", lit "IS")
    ∷ (lit "冰岛", lit "IS")
    ∷ (lit "israel", lit "IL")
    ∷ (lit "以色列", lit "IL")
    ∷ (lit "estonia", lit "EE")
    ∷ (lit "爱沙尼亚", lit "EE")
    ∷ (lit "latvia", lit "LV")
    ∷ (lit "拉脱维亚", lit "LV")
    ∷ (lit "bulgaria", lit "BG")
    ∷ (lit "保加利亚", lit "BG")
    ∷ (lit "slovakia", lit "SK")
    ∷ (lit "斯洛伐克", lit "SK")
    ∷ (lit "czech", lit "CZ")
    ∷ (lit "捷克", lit "CZ")
    ∷ (lit "lithuania", lit "LT")
    ∷ (lit "立陶宛", lit "LT")
    ∷ (lit "costa rica", lit "CR")
    ∷ (lit "哥斯达黎加", lit "CR")
    ∷ (lit "cyprus", lit "CY")
    ∷ (lit "塞浦路斯", lit "CY")
    ∷ (lit "georgia", lit "GE")
    ∷ (lit "格鲁吉亚", lit "GE")
    ∷ (lit "jordan", lit "JO")
    ∷ (lit "约旦", lit "JO")
    ∷ (lit "kyrgyzstan", lit "KG")
    ∷ (lit "吉尔吉斯斯坦", lit "KG")
    ∷ (lit "morocco", lit "MA")
    ∷ (lit "摩洛哥", lit "MA")
    ∷ (lit "malta", lit "MT")
    ∷ (lit "马耳他", lit "MT")
    ∷ (lit "peru", lit "PE")
    ∷ (lit "秘鲁", lit "PE")
    ∷ (lit "puerto rico", lit "PR")
    ∷ (lit "波多黎各", lit "PR")
    ∷ (lit "paraguay", lit "PY")
    ∷ (lit "巴拉圭", lit "PY")
    ∷ (lit "armenia", lit "AM")
    ∷ (lit "亚美尼亚", lit "AM")
    ∷ (lit "macau", lit "MO")
    ∷ (lit "澳门", lit "MO")
    ∷ (lit "ecuador", lit "EC")
    ∷ (lit "厄瓜多尔", lit "EC")
    ∷ (lit "algeria", lit "DZ")
    ∷ (lit "阿尔及利亚", lit "DZ")
    ∷ (lit "guatemala", lit "GT")
    ∷ (lit "危地马拉", lit "GT")
    ∷ (lit "ghana", lit "GH")
    ∷ (lit "加纳", lit "GH")
    ∷ (lit "kenya", lit "KE")
    ∷ (lit "肯尼亚", lit "KE")
    ∷ (lit "kuwait", lit "KW")
    ∷ (lit "科威特", lit "KW")
    ∷ (lit "nigeria", lit "NG")
    ∷ (lit "尼日利亚", lit "NG")
    ∷ (lit "nicaragua", lit "NI")
    ∷ (lit "尼加拉瓜", lit "NI")
    ∷ (lit "panama", lit "PA")
    ∷ (lit "巴拿马", lit "PA")
    ∷ (lit "uruguay", lit "UY")
    ∷ (lit "乌拉圭", lit "UY")
    ∷ (lit "china", lit "CN")
    ∷ (lit "中国", lit "CN")
    ∷ []
