-- ===== src/Registers/Values/GridCodes/Part3.antt =====
-- GRID_CODES of src/huawei_solar/register_values.py, part 3 of 3.
use huawei_solar_lib.Base.{ℕ, List, [], ◌∷◌}
use huawei_solar_lib.Registers.Values.{Definition, grid_code}

unfoldable pub grid_codes_part_3 : List (ℕ × Definition)
grid_codes_part_3 =
    (270, grid_code (record { standard = "VDE-AR-N4110-MV800"; country = "Germany" }))
    ∷ (271, grid_code (record { standard = "Panama-MV800"; country = "Panama" }))
    ∷ (272, grid_code (record { standard = "Macedonia-MV800"; country = "Macedonia" }))
    ∷ (273, grid_code (record { standard = "NTS"; country = "Spain" }))
    ∷ (274, grid_code (record { standard = "NTS-MV480"; country = "Spain" }))
    ∷ (275, grid_code (record { standard = "NTS-MV800"; country = "Spain" }))
    ∷ (276, grid_code (record { standard = "AS4777-WP"; country = "Australia" }))
    ∷ (277, grid_code (record { standard = "CEA"; country = "India" }))
    ∷ (278, grid_code (record { standard = "CEA-MV480"; country = "India" }))
    ∷ (279, grid_code (record { standard = "SINGAPORE"; country = "Singapore" }))
    ∷ (280, grid_code (record { standard = "SINGAPORE-MV480"; country = "Singapore" }))
    ∷ (281, grid_code (record { standard = "SINGAPORE-MV800"; country = "Singapore" }))
    ∷ (282, grid_code (record { standard = "HONGKONG"; country = "Hong Kong" }))
    ∷ (283, grid_code (record { standard = "HONGKONG-MV480"; country = "Hong Kong" }))
    ∷ (284, grid_code (record { standard = "C10/11-MV400"; country = "Belgium" }))
    ∷ (285, grid_code (record { standard = "KOREA-MV800"; country = "Korea" }))
    ∷ (286, grid_code (record { standard = "Cambodia"; country = "Cambodia" }))
    ∷ (287, grid_code (record { standard = "Cambodia-MV480"; country = "Cambodia" }))
    ∷ (288, grid_code (record { standard = "Cambodia-MV800"; country = "Cambodia" }))
    ∷ (289, grid_code (record { standard = "EN50549-SE"; country = "Sweden" }))
    ∷ (290, grid_code (record { standard = "GREG030"; country = "Columbia" }))
    ∷ (291, grid_code (record { standard = "GREG030-MV440"; country = "Columbia" }))
    ∷ (292, grid_code (record { standard = "GREG030-MV480"; country = "Columbia" }))
    ∷ (293, grid_code (record { standard = "GREG030-MV800"; country = "Columbia" }))
    ∷ (294, grid_code (record { standard = "PERU-MV800"; country = "Peru" }))
    ∷ (295, grid_code (record { standard = "PORTUGAL"; country = "Portugal" }))
    ∷ (296, grid_code (record { standard = "PORTUGAL-MV480"; country = "Portugal" }))
    ∷ (297, grid_code (record { standard = "AS4777-ACT"; country = "Australia" }))
    ∷ (298, grid_code (record { standard = "AS4777-NSW-ESS"; country = "Australia" }))
    ∷ (299, grid_code (record { standard = "AS4777-NSW-AG"; country = "Australia" }))
    ∷ (300, grid_code (record { standard = "AS4777-QLD"; country = "Australia" }))
    ∷ (301, grid_code (record { standard = "AS4777-SA"; country = "Australia" }))
    ∷ (302, grid_code (record { standard = "AS4777-VIC"; country = "Australia" }))
    ∷ (303, grid_code (record { standard = "EN50549-PL"; country = "Polamd" }))
    ∷ (304, grid_code (record { standard = "Island-Grid"; country = "General" }))
    ∷ (305, grid_code (record { standard = "TAIPOWER-LV220"; country = "China Taiwan" }))
    ∷ (306, grid_code (record { standard = "Mexico-LV220"; country = "Mexico" }))
    ∷ (307, grid_code (record { standard = "ABNT NBR 161490LV127"; country = "Brazil" }))
    ∷ (308, grid_code (record { standard = "Philippines-LV220-50Hz"; country = "Philippines" }))
    ∷ (309, grid_code (record { standard = "Philippines-LV220-60Hz"; country = "Philippines" }))
    ∷ (310, grid_code (record { standard = "Israel-HV800"; country = "Israel" }))
    ∷ (311, grid_code (record { standard = "DENMARK-EN50549-DK1-LV230"; country = "Denmark" }))
    ∷ (312, grid_code (record { standard = "DENMARK-EN50549-DK2-LV230"; country = "Denmark" }))
    ∷ (
      313,
      grid_code (record { standard = "SWITZERLAND-NA/EEA:2020-LV230"; country = "Switzerland" }),
    )
    ∷ (314, grid_code (record { standard = "Japan-LV202-50Hz"; country = "Japan" }))
    ∷ (315, grid_code (record { standard = "Japan-LC202-60Hz"; country = "Japan" }))
    ∷ (316, grid_code (record { standard = "AUSTRIA-MV800"; country = "Austria" }))
    ∷ (317, grid_code (record { standard = "AUSTRIA-HV800"; country = "Austria" }))
    ∷ (318, grid_code (record { standard = "POLAND-EN50549-MV800"; country = "Poland" }))
    ∷ (319, grid_code (record { standard = "IRELAND-EN50549-LV230"; country = "Ireland" }))
    ∷ (320, grid_code (record { standard = "IRELAND-EN50549-MV480"; country = "Ireland" }))
    ∷ (321, grid_code (record { standard = "IRELAND-EN50549-MV800"; country = "Ireland" }))
    ∷ (322, grid_code (record { standard = "DENMARK-EN50549-MV800"; country = "Denmark" }))
    ∷ (323, grid_code (record { standard = "FRANCE-RTE-MV800"; country = "France" }))
    ∷ (324, grid_code (record { standard = "AUSTRALIA-AS4777_A-LV230"; country = "Australia" }))
    ∷ (325, grid_code (record { standard = "AUSTRALIA-AS4777_B-LV230"; country = "Australia" }))
    ∷ (326, grid_code (record { standard = "AUSTRALIA-AS4777_C-LV230"; country = "Australia" }))
    ∷ (327, grid_code (record { standard = "AUSTRALIA-AS4777_NZ-LV230"; country = "Australia" }))
    ∷ (328, grid_code (record { standard = "AUSTRALIA-AS4777_A-MV800"; country = "Australia" }))
    ∷ (329, grid_code (record { standard = "CHINA-GBT34120-MV800"; country = "China" }))
    ∷ (330, grid_code (record { standard = "UZBEKISTAN-MV800"; country = "Uzbekistan" }))
    ∷ (331, grid_code (record { standard = "CHINA-GBT34120-MV380"; country = "China" }))
    ∷ (333, grid_code (record { standard = "CHINA-MV690"; country = "China" }))
    ∷ (334, grid_code (record { standard = "IEC61727-MV720"; country = "India" }))
    ∷ (335, grid_code (record { standard = "INDIA-CEA-MV720"; country = "India" }))
    ∷ (336, grid_code (record { standard = "SA-NRS-097-MV720"; country = "South Africa" }))
    ∷ (337, grid_code (record { standard = "SA-RPPS-MV720"; country = "South Africa" }))
    ∷ (338, grid_code (record { standard = "SAUDI-MV720"; country = "Saudi Arabia" }))
    ∷ (339, grid_code (record { standard = "UZBEKISTAN-MV720"; country = "Uzbekistan" }))
    ∷ (340, grid_code (record { standard = "EGYPT-ETEC-MC720"; country = "Egypt" }))
    ∷ (341, grid_code (record { standard = "KAZAKHSTAN-MV690"; country = "Kazakhstan" }))
    ∷ (342, grid_code (record { standard = "CHINA-CUSTOM-MV800"; country = "China" }))
    ∷ (343, grid_code (record { standard = "JAPAN-MV200-50Hz"; country = "Japan" }))
    ∷ (344, grid_code (record { standard = "JAPAN-MV210-50Hz"; country = "Japan" }))
    ∷ (345, grid_code (record { standard = "JAPAN-MV230-50Hz"; country = "Japan" }))
    ∷ (346, grid_code (record { standard = "JAPAN-MV250-50Hz"; country = "Japan" }))
    ∷ (347, grid_code (record { standard = "JAPAN-MV200-60Hz"; country = "Japan" }))
    ∷ (348, grid_code (record { standard = "JAPAN-MV210-60Hz"; country = "Japan" }))
    ∷ (349, grid_code (record { standard = "JAPAN-MV230-60Hz"; country = "Japan" }))
    ∷ (350, grid_code (record { standard = "JAPAN-MV250-60Hz"; country = "Japan" }))
    ∷ (351, grid_code (record { standard = "CZECH-EN50549-LV230"; country = "Czech Republic" }))
    ∷ (352, grid_code (record { standard = "CZECH-EN50549-MV480"; country = "Czech Republic" }))
    ∷ (353, grid_code (record { standard = "CZECH-EN50549-MV800"; country = "Czech Republic" }))
    ∷ (354, grid_code (record { standard = "CHINA_MV315"; country = "China" }))
    ∷ (355, grid_code (record { standard = "KOREA-MV690-60Hz"; country = "Korea" }))
    ∷ (356, grid_code (record { standard = "ANRE-MV800"; country = "Romania" }))
    ∷ (357, grid_code (record { standard = "FINLAND-EN50549-LV230"; country = "Finland" }))
    ∷ (358, grid_code (record { standard = "AUSTRIA-MV400-50Hz"; country = "Austria" }))
    ∷ (359, grid_code (record { standard = "SAUDI-LV220"; country = "Saudi Arabia" }))
    ∷ (360, grid_code (record { standard = "CHINA-MV285"; country = "China" }))
    ∷ (361, grid_code (record { standard = "CHINA-MV360"; country = "China" }))
    ∷ (362, grid_code (record { standard = "JAPAN-MV270-50Hz"; country = "Japan" }))
    ∷ (363, grid_code (record { standard = "JAPAN-MV330-50Hz"; country = "Japan" }))
    ∷ (364, grid_code (record { standard = "JAPAN-MV380-50Hz"; country = "Japan" }))
    ∷ (365, grid_code (record { standard = "JAPAN-MV270-60Hz"; country = "Japan" }))
    ∷ (366, grid_code (record { standard = "JAPAN-MV330-60Hz"; country = "Japan" }))
    ∷ (367, grid_code (record { standard = "JAPAN-MV380-60Hz"; country = "Japan" }))
    ∷ (368, grid_code (record { standard = "LITHUANIA-EN50549-MV800"; country = "Lithuania" }))
    ∷ (369, grid_code (record { standard = "FINLAND-EN50549-MV400"; country = "Finland" }))
    ∷ (370, grid_code (record { standard = "FINLAND-EN50549-MV480"; country = "Finland" }))
    ∷ (371, grid_code (record { standard = "FINLAND-EN50549-MV800"; country = "Finland" }))
    ∷ (372, grid_code (record { standard = "EN50549-SE-MV400"; country = "Sweden" }))
    ∷ (373, grid_code (record { standard = "EN50549-SE-MV480"; country = "Sweden" }))
    ∷ (374, grid_code (record { standard = "EN50549-SE-MV800"; country = "Sweden" }))
    ∷ (375, grid_code (record { standard = "CEPM"; country = "Dominican Republic" }))
    ∷ (376, grid_code (record { standard = "CEPM-MV480"; country = "Dominican Republic" }))
    ∷ (377, grid_code (record { standard = "CEPM-MV800"; country = "Dominican Republic" }))
    ∷ (378, grid_code (record { standard = "SA-BESF-L"; country = "South Africa" }))
    ∷ (379, grid_code (record { standard = "SA-BESF-L-MV480"; country = "South Africa" }))
    ∷ (380, grid_code (record { standard = "SA-BESF-L-MV800"; country = "South Africa" }))
    ∷ (381, grid_code (record { standard = "SA-BESF-H"; country = "South Africa" }))
    ∷ (382, grid_code (record { standard = "SA-BESF-H-MV480"; country = "South Africa" }))
    ∷ (383, grid_code (record { standard = "SA-BESF-H-MV800"; country = "South Africa" }))
    ∷ (384, grid_code (record { standard = "BRAZIL-P140-LV220"; country = "Brzail" }))
    ∷ (385, grid_code (record { standard = "NEW CALEDONIA-LV230"; country = "New Caledonia" }))
    ∷ (386, grid_code (record { standard = "Israel-MV400"; country = "Israel" }))
    ∷ (387, grid_code (record { standard = "ANRE-TYPEB"; country = "Romania" }))
    ∷ (388, grid_code (record { standard = "ANRE-TYPEB-MV480"; country = "Romania" }))
    ∷ (389, grid_code (record { standard = "AUSTRIANER_TYPEB_LV400"; country = "Austria" }))
    ∷ (390, grid_code (record { standard = "AUSTRIANER_TYPEB_LV480"; country = "Austria" }))
    ∷ (391, grid_code (record { standard = "AUSTRIANER_TYPEB_MV400"; country = "Austria" }))
    ∷ (392, grid_code (record { standard = "AUSTRIANER_TYPEB_MV480"; country = "Austria" }))
    ∷ (393, grid_code (record { standard = "IRAQ-MV800"; country = "Iraq" }))
    ∷ (394, grid_code (record { standard = "MOROCCO-MV800"; country = "Morocco" }))
    ∷ (395, grid_code (record { standard = "ALGERIA-MV800"; country = "Algeria" }))
    ∷ (396, grid_code (record { standard = "CHINA-GBT19964-MV800"; country = "China" }))
    ∷ (397, grid_code (record { standard = "CHINA-GBT29319-MV800"; country = "China" }))
    ∷ (398, grid_code (record { standard = "SENEGAL"; country = "Senegal" }))
    ∷ (399, grid_code (record { standard = "SENEGAL-MV480"; country = "Senegal" }))
    ∷ (400, grid_code (record { standard = "SENEGAL-MV800"; country = "Senegal" }))
    ∷ (401, grid_code (record { standard = "NC2022"; country = "New Caledonia" }))
    ∷ []
