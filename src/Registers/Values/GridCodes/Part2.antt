-- ===== src/Registers/Values/GridCodes/Part2.antt =====
-- GRID_CODES of src/huawei_solar/register_values.py, part 2 of 3.
use huawei_solar_lib.Base.{ℕ, List, [], ◌∷◌}
use huawei_solar_lib.Registers.Values.{Definition, grid_code}

unfoldable pub grid_codes_part_2 : List (ℕ × Definition)
grid_codes_part_2 =
    (135, grid_code (record { standard = "Jordan-Transmission-MV800"; country = "Jordan" }))
    ∷ (136, grid_code (record { standard = "Jordan-Distribution-MV800"; country = "Jordan" }))
    ∷ (137, grid_code (record { standard = "Egypt ETEC-MV800"; country = "Egypt" }))
    ∷ (138, grid_code (record { standard = "DUBAI-MV800"; country = "Dubai" }))
    ∷ (139, grid_code (record { standard = "SAUDI-MV800"; country = "Saudi Arabia" }))
    ∷ (140, grid_code (record { standard = "EN50438_IE-MV800"; country = "Ireland" }))
    ∷ (141, grid_code (record { standard = "EN50549-MV800"; country = "Ireland" }))
    ∷ (
      142,
      grid_code (record { standard = "Northern Ireland-MV800"; country = "Northern Ireland" }),
    )
    ∷ (143, grid_code (record { standard = "CEI0-21-MV800"; country = "Italy" }))
    ∷ (144, grid_code (record { standard = "IEC 61727-MV800-60Hz"; country = "General" }))
    ∷ (145, grid_code (record { standard = "NAMIBIA_MV480"; country = "Namibia" }))
    ∷ (146, grid_code (record { standard = "Japan (LV202-50Hz)"; country = "Japan" }))
    ∷ (147, grid_code (record { standard = "Japan (LV202-60Hz)"; country = "Japan" }))
    ∷ (148, grid_code (record { standard = "Pakistan-MV800"; country = "Pakistan" }))
    ∷ (149, grid_code (record { standard = "BRASIL-ANEEL-MV800"; country = "Brazil" }))
    ∷ (150, grid_code (record { standard = "Israel-MV800"; country = "Israel" }))
    ∷ (151, grid_code (record { standard = "CEI0-16-MV800"; country = "Italy" }))
    ∷ (152, grid_code (record { standard = "ZAMBIA-MV800"; country = "Zambia" }))
    ∷ (153, grid_code (record { standard = "KENYA_ETHIOPIA-MV800"; country = "East Africa" }))
    ∷ (154, grid_code (record { standard = "NAMIBIA_MV800"; country = "Namibia" }))
    ∷ (155, grid_code (record { standard = "Cameroon-MV800"; country = "Cameroon" }))
    ∷ (156, grid_code (record { standard = "NIGERIA-MV800"; country = "Nigeria" }))
    ∷ (157, grid_code (record { standard = "ABUDHABI-MV800"; country = "Abu Dhabi" }))
    ∷ (158, grid_code (record { standard = "LEBANON"; country = "Lebanon" }))
    ∷ (159, grid_code (record { standard = "LEBANON-MV480"; country = "Lebanon" }))
    ∷ (160, grid_code (record { standard = "LEBANON-MV800"; country = "Lebanon" }))
    ∷ (161, grid_code (record { standard = "ARGENTINA-MV800"; country = "Argentina" }))
    ∷ (162, grid_code (record { standard = "ARGENTINA-MV500"; country = "Argentina" }))
    ∷ (163, grid_code (record { standard = "Jordan-Transmission-HV"; country = "Jordan" }))
    ∷ (164, grid_code (record { standard = "Jordan-Transmission-HV480"; country = "Jordan" }))
    ∷ (165, grid_code (record { standard = "Jordan-Transmission-HV800"; country = "Jordan" }))
    ∷ (166, grid_code (record { standard = "TUNISIA"; country = "Tunisia" }))
    ∷ (167, grid_code (record { standard = "TUNISIA-MV480"; country = "Tunisia" }))
    ∷ (168, grid_code (record { standard = "TUNISIA-MV800"; country = "Tunisia" }))
    ∷ (169, grid_code (record { standard = "JAMAICA-MV800"; country = "Jamaica" }))
    ∷ (170, grid_code (record { standard = "AUSTRALIA-NER"; country = "Australia" }))
    ∷ (171, grid_code (record { standard = "AUSTRALIA-NER-MV480"; country = "Australia" }))
    ∷ (172, grid_code (record { standard = "AUSTRALIA-NER-MV800"; country = "Australia" }))
    ∷ (173, grid_code (record { standard = "SAUDI"; country = "Saudi Arabia" }))
    ∷ (174, grid_code (record { standard = "SAUDI-MV480"; country = "Saudi Arabia" }))
    ∷ (175, grid_code (record { standard = "Ghana-MV480"; country = "Ghana" }))
    ∷ (176, grid_code (record { standard = "Israel"; country = "Israel" }))
    ∷ (177, grid_code (record { standard = "Israel-MV480"; country = "Israel" }))
    ∷ (178, grid_code (record { standard = "Chile-PMGD"; country = "Chile" }))
    ∷ (179, grid_code (record { standard = "Chile-PMGD-MV480"; country = "Chile" }))
    ∷ (180, grid_code (record { standard = "VDE-AR-N4120-HV"; country = "Germany" }))
    ∷ (181, grid_code (record { standard = "VDE-AR-N4120-HV480"; country = "Germany" }))
    ∷ (182, grid_code (record { standard = "VDE-AR-N4120-HV800"; country = "Germany" }))
    ∷ (183, grid_code (record { standard = "IEEE 1547-MV800"; country = "USA" }))
    ∷ (184, grid_code (record { standard = "Nicaragua-MV800"; country = "Nicaragua" }))
    ∷ (185, grid_code (record { standard = "IEEE 1547a-MV800"; country = "USA" }))
    ∷ (
      186,
      grid_code (record { standard = "ELECTRIC RULE NO.21-MV800"; country = "California, USA" }),
    )
    ∷ (187, grid_code (record { standard = "HECO-MV800"; country = "Hawaii, USA" }))
    ∷ (188, grid_code (record { standard = "PRC_024_Eastern-MV800"; country = "Eastern USA" }))
    ∷ (189, grid_code (record { standard = "PRC_024_Western-MV800"; country = "Western USA" }))
    ∷ (190, grid_code (record { standard = "PRC_024_Quebec-MV800"; country = "Quebec, Canada" }))
    ∷ (191, grid_code (record { standard = "PRC_024_ERCOT-MV800"; country = "Texas, USA" }))
    ∷ (192, grid_code (record { standard = "Custom-MV800-50Hz"; country = "Custom" }))
    ∷ (193, grid_code (record { standard = "RD1699/661-MV800"; country = "Spain" }))
    ∷ (194, grid_code (record { standard = "PO12.3-MV800"; country = "Spain" }))
    ∷ (195, grid_code (record { standard = "Mexico-MV600"; country = "Mexico" }))
    ∷ (196, grid_code (record { standard = "Vietnam-MV800"; country = "Vietnam" }))
    ∷ (197, grid_code (record { standard = "CHINA-LV220/380"; country = "China" }))
    ∷ (198, grid_code (record { standard = "SVG-LV"; country = "Dedicated" }))
    ∷ (199, grid_code (record { standard = "Vietnam"; country = "Vietnam" }))
    ∷ (200, grid_code (record { standard = "Vietnam-MV480"; country = "Vietnam" }))
    ∷ (201, grid_code (record { standard = "Chile-PMGD-MV800"; country = "Chile" }))
    ∷ (202, grid_code (record { standard = "Ghana-MV800"; country = "Ghana" }))
    ∷ (203, grid_code (record { standard = "TAIPOWER"; country = "Taiwan" }))
    ∷ (204, grid_code (record { standard = "TAIPOWER-MV480"; country = "Taiwan" }))
    ∷ (205, grid_code (record { standard = "TAIPOWER-MV800"; country = "Taiwan" }))
    ∷ (206, grid_code (record { standard = "IEEE 1547-LV208"; country = "USA" }))
    ∷ (207, grid_code (record { standard = "IEEE 1547-LV240"; country = "USA" }))
    ∷ (208, grid_code (record { standard = "IEEE 1547a-LV208"; country = "USA" }))
    ∷ (209, grid_code (record { standard = "IEEE 1547a-LV240"; country = "USA" }))
    ∷ (210, grid_code (record { standard = "ELECTRIC RULE NO.21-LV208"; country = "USA" }))
    ∷ (211, grid_code (record { standard = "ELECTRIC RULE NO.21-LV240"; country = "USA" }))
    ∷ (212, grid_code (record { standard = "HECO-O+M+H-LV208"; country = "USA" }))
    ∷ (213, grid_code (record { standard = "HECO-O+M+H-LV240"; country = "USA" }))
    ∷ (214, grid_code (record { standard = "PRC_024_Eastern-LV208"; country = "USA" }))
    ∷ (215, grid_code (record { standard = "PRC_024_Eastern-LV240"; country = "USA" }))
    ∷ (216, grid_code (record { standard = "PRC_024_Western-LV208"; country = "USA" }))
    ∷ (217, grid_code (record { standard = "PRC_024_Western-LV240"; country = "USA" }))
    ∷ (218, grid_code (record { standard = "PRC_024_ERCOT-LV208"; country = "USA" }))
    ∷ (219, grid_code (record { standard = "PRC_024_ERCOT-LV240"; country = "USA" }))
    ∷ (220, grid_code (record { standard = "PRC_024_Quebec-LV208"; country = "USA" }))
    ∷ (221, grid_code (record { standard = "PRC_024_Quebec-LV240"; country = "USA" }))
    ∷ (222, grid_code (record { standard = "ARGENTINA-MV480"; country = "Argentina" }))
    ∷ (223, grid_code (record { standard = "Oman"; country = "Oman" }))
    ∷ (224, grid_code (record { standard = "Oman-MV480"; country = "Oman" }))
    ∷ (225, grid_code (record { standard = "Oman-MV800"; country = "Oman" }))
    ∷ (226, grid_code (record { standard = "Kuwait"; country = "Kuwait" }))
    ∷ (227, grid_code (record { standard = "Kuwait-MV480"; country = "Kuwait" }))
    ∷ (228, grid_code (record { standard = "Kuwait-MV800"; country = "Kuwait" }))
    ∷ (229, grid_code (record { standard = "Bangladesh"; country = "Bangladesh" }))
    ∷ (230, grid_code (record { standard = "Bangladesh-MV480"; country = "Bangladesh" }))
    ∷ (231, grid_code (record { standard = "Bangladesh-MV800"; country = "Bangladesh" }))
    ∷ (232, grid_code (record { standard = "Chile-Net_Billing"; country = "Chile" }))
    ∷ (233, grid_code (record { standard = "EN50438-NL-MV480"; country = "Netherlands" }))
    ∷ (234, grid_code (record { standard = "Bahrain"; country = "Bahrain" }))
    ∷ (235, grid_code (record { standard = "Bahrain-MV480"; country = "Bahrain" }))
    ∷ (236, grid_code (record { standard = "Bahrain-MV800"; country = "Bahrain" }))
    ∷ (237, grid_code (record { standard = "Fuel-Engine-Grid"; country = "Dedicated" }))
    ∷ (238, grid_code (record { standard = "Japan-MV550-50Hz"; country = "Japan" }))
    ∷ (239, grid_code (record { standard = "Japan-MV550-60Hz"; country = "Japan" }))
    ∷ (241, grid_code (record { standard = "ARGENTINA"; country = "Argentina" }))
    ∷ (242, grid_code (record { standard = "KAZAKHSTAN-MV800"; country = "Kazakhstan" }))
    ∷ (243, grid_code (record { standard = "Mauritius"; country = "Mauritius" }))
    ∷ (244, grid_code (record { standard = "Mauritius-MV480"; country = "Mauritius" }))
    ∷ (245, grid_code (record { standard = "Mauritius-MV800"; country = "Mauritius" }))
    ∷ (246, grid_code (record { standard = "Oman-PDO-MV800"; country = "Oman" }))
    ∷ (247, grid_code (record { standard = "EN50438-SE"; country = "Sweden" }))
    ∷ (248, grid_code (record { standard = "TAI-MEA-MV800"; country = "Thailand" }))
    ∷ (249, grid_code (record { standard = "Pakistan"; country = "Pakistan" }))
    ∷ (250, grid_code (record { standard = "Pakistan-MV480"; country = "Pakistan" }))
    ∷ (251, grid_code (record { standard = "PORTUGAL-MV800"; country = "Portugal" }))
    ∷ (252, grid_code (record { standard = "HECO-L+M-LV208"; country = "USA" }))
    ∷ (253, grid_code (record { standard = "HECO-L+M-LV240"; country = "USA" }))
    ∷ (254, grid_code (record { standard = "C10/11-MV800"; country = "Belgium" }))
    ∷ (255, grid_code (record { standard = "Austria"; country = "Austria" }))
    ∷ (256, grid_code (record { standard = "Austria-MV480"; country = "Austria" }))
    ∷ (257, grid_code (record { standard = "G98"; country = "UK" }))
    ∷ (258, grid_code (record { standard = "G99-TYPEA-LV"; country = "UK" }))
    ∷ (259, grid_code (record { standard = "G99-TYPEB-LV"; country = "UK" }))
    ∷ (260, grid_code (record { standard = "G99-TYPEB-HV"; country = "UK" }))
    ∷ (261, grid_code (record { standard = "G99-TYPEB-HV-MV480"; country = "UK" }))
    ∷ (262, grid_code (record { standard = "G99-TYPEB-HV-MV800"; country = "UK" }))
    ∷ (263, grid_code (record { standard = "G99-TYPEC-HV-MV800"; country = "UK" }))
    ∷ (264, grid_code (record { standard = "G99-TYPED-MV800"; country = "UK" }))
    ∷ (265, grid_code (record { standard = "G99-TYPEA-HV"; country = "UK" }))
    ∷ (266, grid_code (record { standard = "CEA-MV800"; country = "India" }))
    ∷ (267, grid_code (record { standard = "EN50549-MV400"; country = "Europe" }))
    ∷ (268, grid_code (record { standard = "VDE-AR-N4110"; country = "Germany" }))
    ∷ (269, grid_code (record { standard = "VDE-AR-N4110-MV480"; country = "Germany" }))
    ∷ []
