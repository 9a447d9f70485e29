-- ===== src/Gb28181/Sip/Xml.antt =====
-- gb28181/xml.go: the bodies of the messages that are sent.
use lalmax.Base.{ℕ, [], ◌∷◌, ◌++◌}
use lalmax.Base.Text.{Text, codes, decimal}

abbrev line : Text → Text
line s = s ++ (10 ∷ [])

-- "<name>value</name>" and a newline.
unfoldable pub element : Text → Text → Text
element name value =
    line (codes "<" ++ (name ++ (codes ">" ++ (value ++ (codes "</" ++ (name ++ codes ">"))))))

abbrev xml_head : Text
xml_head = codes "<?xml version=\"1.0\"?>"

unfoldable pub query : Text → ℕ → Text → Text
unfolding element decimal
query cmd_type sn id =
    element (codes "CmdType") cmd_type
    ++ (element (codes "SN") (decimal sn)
        ++ (element (codes "DeviceID") id ++ line (codes "</Query>")))

unfoldable pub build_catalog_xml : ℕ → Text → Text
unfolding query
build_catalog_xml sn id = line (xml_head ++ codes "<Query>") ++ query (codes "Catalog") sn id

unfoldable pub build_device_info_xml : ℕ → Text → Text
unfolding query
build_device_info_xml sn id =
    line xml_head ++ (line (codes "<Query>") ++ query (codes "DeviceInfo") sn id)

unfoldable pub build_alarm_response_xml : Text → Text
unfolding element
build_alarm_response_xml id =
    line xml_head
    ++ (line (codes "<Response>")
        ++ (element (codes "CmdType") (codes "Alarm")
            ++ (element (codes "SN") (codes "17430")
                ++ (element (codes "DeviceID") id ++ line (codes "</Response>")))))
