-- ===== src/Qcloud/Regions.antt =====
-- The two region tables of pkg/cloudsdk/qcloud/client.go.
pub mod Laws
use fadvisor.Prelude.{ℕ, List, [], ◌∷◌, String}
use fadvisor.Prelude.Dict.{Dict}

pub record Region : Type 0 where
  pub region_id : ℕ
  pub region : String
  pub region_name : String
  pub area : String
  pub region_short_name : String

abbrev entry : String → ℕ → String → String → String → String → String × Region
entry key id region name area short = (
  key,
  record {
    region_id = id;
    region = region;
    region_name = name;
    area = area;
    region_short_name = short;
  },
)

unfoldable pub short_name2region : Dict Region
short_name2region =
    entry "gz" 1 "ap-guangzhou" "广州" "华南地区" "gz"
    ∷ entry "gzopen" 12 "ap-guangzhou-open" "广州Open" "华南地区" "gzopen"
    ∷ entry "qy" 54 "ap-qingyuan" "清远" "华南地区" "qy"
    ∷ entry "szx" 37 "ap-shenzhen" "深圳" "华南地区" "szx"
    ∷ entry "szjr" 11 "ap-shenzhen-fsi" "深圳金融" "华南地区" "szjr"
    ∷ entry "sh" 4 "ap-shanghai" "上海" "华东地区" "sh"
    ∷ entry "shjr" 7 "ap-shanghai-fsi" "上海金融" "华东地区" "shjr"
    ∷ entry "nj" 33 "ap-nanjing" "南京" "华东地区" "nj"
    ∷ entry "jnec" 31 "ap-jinan-ec" "济南" "华东地区" "jnec"
    ∷ entry "hzec" 32 "ap-hangzhou-ec" "杭州" "华东地区" "hzec"
    ∷ entry "fzec" 34 "ap-fuzhou-ec" "福州" "华东地区" "fzec"
    ∷ entry "bj" 8 "ap-beijing" "北京" "华北地区" "bj"
    ∷ entry "tsn" 36 "ap-tianjin" "天津" "华北地区" "tsn"
    ∷ entry "sjwec" 53 "ap-shijiazhuang-ec" "石家庄" "华北地区" "sjwec"
    ∷ entry "bjjr" 46 "ap-beijing-fsi" "北京金融" "华北地区" "bjjr"
    ∷ entry "whec" 35 "ap-wuhan-ec" "武汉" "华中地区" "whec"
    ∷ entry "csec" 45 "ap-changsha-ec" "长沙" "华中地区" "csec"
    ∷ entry "cd" 16 "ap-chengdu" "成都" "西南地区" "cd"
    ∷ entry "cq" 19 "ap-chongqing" "重庆" "西南地区" "cq"
    ∷ entry "hfeec" 55 "ap-hefei-ec" "合肥" "华东地区" "hfeec"
    ∷ entry "sheec" 56 "ap-shenyang-ec" "沈阳" "东北地区" "sheec"
    ∷ entry "xiyec" 57 "ap-xian-ec" "西安" "西北地区" "xiyec"
    ∷ entry "cgoec" 71 "ap-zhengzhou-ec" "郑州" "华中地区" "cgoec"
    ∷ entry "tpe" 39 "ap-taipei" "中国台北" "港澳台地区" "tpe"
    ∷ entry "hk" 5 "ap-hongkong" "中国香港" "港澳台地区" "hk"
    ∷ entry "sg" 9 "ap-singapore" "新加坡" "亚太东南" "sg"
    ∷ entry "th" 23 "ap-bangkok" "曼谷" "亚太东南" "th"
    ∷ entry "jkt" 72 "ap-jakarta" "雅加达" "亚太东南" "jkt"
    ∷ entry "in" 21 "ap-mumbai" "孟买" "亚太南部" "in"
    ∷ entry "kr" 18 "ap-seoul" "首尔" "亚太东北" "kr"
    ∷ entry "jp" 25 "ap-tokyo" "东京" "亚太东北" "jp"
    ∷ entry "usw" 15 "na-siliconvalley" "硅谷" "美国西部" "usw"
    ∷ entry "use" 22 "na-ashburn" "弗吉尼亚" "美国东部" "use"
    ∷ entry "ca" 6 "na-toronto" "多伦多" "北美地区" "ca"
    ∷ entry "de" 17 "eu-frankfurt" "法兰克福" "欧洲地区" "de"
    ∷ entry "ru" 24 "eu-moscow" "莫斯科" "欧洲地区" "ru"
    ∷ []

unfoldable pub region2short_name_region : Dict Region
region2short_name_region =
    entry "ap-guangzhou" 1 "ap-guangzhou" "广州" "华南地区" "gz"
    ∷ entry "ap-guangzhou-open" 12 "ap-guangzhou-open" "广州Open" "华南地区" "gzopen"
    ∷ entry "ap-qingyuan" 54 "ap-qingyuan" "清远" "华南地区" "qy"
    ∷ entry "ap-shenzhen" 37 "ap-shenzhen" "深圳" "华南地区" "szx"
    ∷ entry "ap-shenzhen-fsi" 11 "ap-shenzhen-fsi" "深圳金融" "华南地区" "szjr"
    ∷ entry "ap-shanghai" 4 "ap-shanghai" "上海" "华东地区" "sh"
    ∷ entry "ap-shanghai-fsi" 7 "ap-shanghai-fsi" "上海金融" "华东地区" "shjr"
    ∷ entry "ap-nanjing" 33 "ap-nanjing" "南京" "华东地区" "nj"
    ∷ entry "ap-jinan-ec" 31 "ap-jinan-ec" "济南" "华东地区" "jnec"
    ∷ entry "ap-hangzhou-ec" 32 "ap-hangzhou-ec" "杭州" "华东地区" "hzec"
    ∷ entry "ap-fuzhou-ec" 34 "ap-fuzhou-ec" "福州" "华东地区" "fzec"
    ∷ entry "ap-beijing" 8 "ap-beijing" "北京" "华北地区" "bj"
    ∷ entry "ap-tianjin" 36 "ap-tianjin" "天津" "华北地区" "tsn"
    ∷ entry "ap-shijiazhuang-ec" 53 "ap-shijiazhuang-ec" "石家庄" "华北地区" "sjwec"
    ∷ entry "ap-beijing-fsi" 46 "ap-beijing-fsi" "北京金融" "华北地区" "bjjr"
    ∷ entry "ap-wuhan-ec" 35 "ap-wuhan-ec" "武汉" "华中地区" "whec"
    ∷ entry "ap-changsha-ec" 45 "ap-changsha-ec" "长沙" "华中地区" "csec"
    ∷ entry "ap-chengdu" 16 "ap-chengdu" "成都" "西南地区" "cd"
    ∷ entry "ap-chongqing" 19 "ap-chongqing" "重庆" "西南地区" "cq"
    ∷ entry "ap-hefei-ec" 55 "ap-hefei-ec" "合肥" "华东地区" "hfeec"
    ∷ entry "ap-shenyang-ec" 56 "ap-shenyang-ec" "沈阳" "东北地区" "sheec"
    ∷ entry "ap-xian-ec" 57 "ap-xian-ec" "西安" "西北地区" "xiyec"
    ∷ entry "ap-zhengzhou-ec" 71 "ap-zhengzhou-ec" "郑州" "华中地区" "cgoec"
    ∷ entry "ap-taipei" 39 "ap-taipei" "中国台北" "港澳台地区" "tpe"
    ∷ entry "ap-hongkong" 5 "ap-hongkong" "中国香港" "港澳台地区" "hk"
    ∷ entry "ap-singapore" 9 "ap-singapore" "新加坡" "亚太东南" "sg"
    ∷ entry "ap-bangkok" 23 "ap-bangkok" "曼谷" "亚太东南" "th"
    ∷ entry "ap-jakarta" 72 "ap-jakarta" "雅加达" "亚太东南" "jkt"
    ∷ entry "ap-mumbai" 21 "ap-mumbai" "孟买" "亚太南部" "in"
    ∷ entry "ap-seoul" 18 "ap-seoul" "首尔" "亚太东北" "kr"
    ∷ entry "ap-tokyo" 25 "ap-tokyo" "东京" "亚太东北" "jp"
    ∷ entry "na-siliconvalley" 15 "na-siliconvalley" "硅谷" "美国西部" "usw"
    ∷ entry "na-ashburn" 22 "na-ashburn" "弗吉尼亚" "美国东部" "use"
    ∷ entry "na-toronto" 6 "na-toronto" "多伦多" "北美地区" "ca"
    ∷ entry "eu-frankfurt" 17 "eu-frankfurt" "法兰克福" "欧洲地区" "de"
    ∷ entry "eu-moscow" 24 "eu-moscow" "莫斯科" "欧洲地区" "ru"
    ∷ []
