-- ===== src/Registers/Values/GridCodes/Part1.antt =====
-- GRID_CODES of src/huawei_solar/register_values.py, part 1 of 3.
use huawei_solar_lib.Base.{ℕ, List, [], ◌∷◌}
use huawei_solar_lib.Registers.Values.{Definition, grid_code}

unfoldable pub grid_codes_part_1 : List (ℕ × Definition)
grid_codes_part_1 =
    (0, grid_code (record { standard = "VDE-AR-N-4105"; country = "Germany" }))
    ∷ (1, grid_code (record { standard = "NB/T 32004"; country = "China" }))
    ∷ (2, grid_code (record { standard = "UTE C 15-712-1(A)"; country = "France" }))
    ∷ (3, grid_code (record { standard = "UTE C 15-712-1(B)"; country = "France" }))
    ∷ (4, grid_code (record { standard = "UTE C 15-712-1(C)"; country = "France" }))
    ∷ (5, grid_code (record { standard = "VDE 0126-1-1-BU"; country = "Bulgary" }))
    ∷ (6, grid_code (record { standard = "VDE 0126-1-1-GR(A)"; country = "Greece" }))
    ∷ (7, grid_code (record { standard = "VDE 0126-1-1-GR(B)"; country = "Greece" }))
    ∷ (8, grid_code (record { standard = "BDEW-MV"; country = "Germany" }))
    ∷ (9, grid_code (record { standard = "G59-England"; country = "UK" }))
    ∷ (10, grid_code (record { standard = "G59-Scotland"; country = "UK" }))
    ∷ (11, grid_code (record { standard = "G83-England"; country = "UK" }))
    ∷ (12, grid_code (record { standard = "G83-Scotland"; country = "UK" }))
    ∷ (13, grid_code (record { standard = "CEI0-21"; country = "Italy" }))
    ∷ (14, grid_code (record { standard = "EN50438-CZ"; country = "Czech Republic" }))
    ∷ (15, grid_code (record { standard = "RD1699/661"; country = "Spain" }))
    ∷ (16, grid_code (record { standard = "RD1699/661-MV480"; country = "Spain" }))
    ∷ (17, grid_code (record { standard = "EN50438-NL"; country = "Netherlands" }))
    ∷ (18, grid_code (record { standard = "C10/11"; country = "Belgium" }))
    ∷ (19, grid_code (record { standard = "AS4777"; country = "Australia" }))
    ∷ (20, grid_code (record { standard = "IEC61727"; country = "General" }))
    ∷ (21, grid_code (record { standard = "Custom (50 Hz)"; country = "Custom" }))
    ∷ (22, grid_code (record { standard = "Custom (60 Hz)"; country = "Custom" }))
    ∷ (23, grid_code (record { standard = "CEI0-16"; country = "Italy" }))
    ∷ (24, grid_code (record { standard = "CHINA-MV480"; country = "China" }))
    ∷ (25, grid_code (record { standard = "CHINA-MV"; country = "China" }))
    ∷ (26, grid_code (record { standard = "TAI-PEA"; country = "Thailand" }))
    ∷ (27, grid_code (record { standard = "TAI-MEA"; country = "Thailand" }))
    ∷ (28, grid_code (record { standard = "BDEW-MV480"; country = "Germany" }))
    ∷ (29, grid_code (record { standard = "Custom MV480 (50 Hz)"; country = "Custom" }))
    ∷ (30, grid_code (record { standard = "Custom MV480 (60 Hz)"; country = "Custom" }))
    ∷ (31, grid_code (record { standard = "G59-England-MV480"; country = "UK" }))
    ∷ (32, grid_code (record { standard = "IEC61727-MV480"; country = "General" }))
    ∷ (33, grid_code (record { standard = "UTE C 15-712-1-MV480"; country = "France" }))
    ∷ (34, grid_code (record { standard = "TAI-PEA-MV480"; country = "Thailand" }))
    ∷ (35, grid_code (record { standard = "TAI-MEA-MV480"; country = "Thailand" }))
    ∷ (36, grid_code (record { standard = "EN50438-DK-MV480"; country = "Denmark" }))
    ∷ (37, grid_code (record { standard = "Japan standard (50 Hz)"; country = "Japan" }))
    ∷ (38, grid_code (record { standard = "Japan standard (60 Hz)"; country = "Japan" }))
    ∷ (39, grid_code (record { standard = "EN50438-TR-MV480"; country = "Turkey" }))
    ∷ (40, grid_code (record { standard = "EN50438-TR"; country = "Turkey" }))
    ∷ (41, grid_code (record { standard = "C11/C10-MV480"; country = "Belgium" }))
    ∷ (42, grid_code (record { standard = "Philippines"; country = "Philippines" }))
    ∷ (43, grid_code (record { standard = "Philippines-MV480"; country = "Philippines" }))
    ∷ (44, grid_code (record { standard = "AS4777-MV480"; country = "Australia" }))
    ∷ (45, grid_code (record { standard = "NRS-097-2-1"; country = "South Africa" }))
    ∷ (46, grid_code (record { standard = "NRS-097-2-1-MV480"; country = "South Africa" }))
    ∷ (47, grid_code (record { standard = "KOREA"; country = "South Korea" }))
    ∷ (48, grid_code (record { standard = "IEEE 1547-MV480"; country = "USA" }))
    ∷ (49, grid_code (record { standard = "IEC61727-60Hz"; country = "General" }))
    ∷ (50, grid_code (record { standard = "IEC61727-60Hz-MV480"; country = "General" }))
    ∷ (51, grid_code (record { standard = "CHINA_MV500"; country = "China" }))
    ∷ (52, grid_code (record { standard = "ANRE"; country = "Romania" }))
    ∷ (53, grid_code (record { standard = "ANRE-MV480"; country = "Romania" }))
    ∷ (
      54,
      grid_code (record { standard = "ELECTRIC RULE NO.21-MV480"; country = "California, USA" }),
    )
    ∷ (55, grid_code (record { standard = "HECO-MV480"; country = "Hawaii, USA" }))
    ∷ (56, grid_code (record { standard = "PRC_024_Eastern-MV480"; country = "Eastern USA" }))
    ∷ (57, grid_code (record { standard = "PRC_024_Western-MV480"; country = "Western USA" }))
    ∷ (58, grid_code (record { standard = "PRC_024_Quebec-MV480"; country = "Quebec, Canada" }))
    ∷ (59, grid_code (record { standard = "PRC_024_ERCOT-MV480"; country = "Texas, USA" }))
    ∷ (60, grid_code (record { standard = "PO12.3-MV480"; country = "Spain" }))
    ∷ (61, grid_code (record { standard = "EN50438_IE-MV480"; country = "Ireland" }))
    ∷ (62, grid_code (record { standard = "EN50438_IE"; country = "Ireland" }))
    ∷ (63, grid_code (record { standard = "IEEE 1547a-MV480"; country = "USA" }))
    ∷ (64, grid_code (record { standard = "Japan standard (MV420-50 Hz)"; country = "Japan" }))
    ∷ (65, grid_code (record { standard = "Japan standard (MV420-60 Hz)"; country = "Japan" }))
    ∷ (66, grid_code (record { standard = "Japan standard (MV440-50 Hz)"; country = "Japan" }))
    ∷ (67, grid_code (record { standard = "Japan standard (MV440-60 Hz)"; country = "Japan" }))
    ∷ (68, grid_code (record { standard = "IEC61727-50Hz-MV500"; country = "General" }))
    ∷ (70, grid_code (record { standard = "CEI0-16-MV480"; country = "Italy" }))
    ∷ (71, grid_code (record { standard = "PO12.3"; country = "Spain" }))
    ∷ (72, grid_code (record { standard = "Japan standard (MV400-50 Hz)"; country = "Japan" }))
    ∷ (73, grid_code (record { standard = "Japan standard (MV400-60 Hz)"; country = "Japan" }))
    ∷ (74, grid_code (record { standard = "CEI0-21-MV480"; country = "Italy" }))
    ∷ (75, grid_code (record { standard = "KOREA-MV480"; country = "South Korea" }))
    ∷ (76, grid_code (record { standard = "Egypt ETEC"; country = "Egypt" }))
    ∷ (77, grid_code (record { standard = "Egypt ETEC-MV480"; country = "Egypt" }))
    ∷ (78, grid_code (record { standard = "CHINA_MV800"; country = "China" }))
    ∷ (79, grid_code (record { standard = "IEEE 1547-MV600"; country = "USA" }))
    ∷ (
      80,
      grid_code (record { standard = "ELECTRIC RULE NO.21-MV600"; country = "California, USA" }),
    )
    ∷ (81, grid_code (record { standard = "HECO-MV600"; country = "Hawaii, USA" }))
    ∷ (82, grid_code (record { standard = "PRC_024_Eastern-MV600"; country = "Eastern USA" }))
    ∷ (83, grid_code (record { standard = "PRC_024_Western-MV600"; country = "Western USA" }))
    ∷ (84, grid_code (record { standard = "PRC_024_Quebec-MV600"; country = "Quebec, Canada" }))
    ∷ (85, grid_code (record { standard = "PRC_024_ERCOT-MV600"; country = "Texas, USA" }))
    ∷ (86, grid_code (record { standard = "IEEE 1547a-MV600"; country = "USA" }))
    ∷ (87, grid_code (record { standard = "EN50549-LV"; country = "Ireland" }))
    ∷ (88, grid_code (record { standard = "EN50549-MV480"; country = "Ireland" }))
    ∷ (89, grid_code (record { standard = "Jordan-Transmission"; country = "Jordan" }))
    ∷ (90, grid_code (record { standard = "Jordan-Transmission-MV480"; country = "Jordan" }))
    ∷ (91, grid_code (record { standard = "NAMIBIA"; country = "Namibia" }))
    ∷ (92, grid_code (record { standard = "ABNT NBR 16149"; country = "Brazil" }))
    ∷ (93, grid_code (record { standard = "ABNT NBR 16149-MV480"; country = "Brazil" }))
    ∷ (94, grid_code (record { standard = "SA_RPPs"; country = "South Africa" }))
    ∷ (95, grid_code (record { standard = "SA_RPPs-MV480"; country = "South Africa" }))
    ∷ (96, grid_code (record { standard = "INDIA"; country = "India" }))
    ∷ (97, grid_code (record { standard = "INDIA-MV500"; country = "India" }))
    ∷ (98, grid_code (record { standard = "ZAMBIA"; country = "Zambia" }))
    ∷ (99, grid_code (record { standard = "ZAMBIA-MV480"; country = "Zambia" }))
    ∷ (100, grid_code (record { standard = "Chile"; country = "Chile" }))
    ∷ (101, grid_code (record { standard = "Chile-MV480"; country = "Chile" }))
    ∷ (102, grid_code (record { standard = "CHINA-MV500-STD"; country = "China" }))
    ∷ (103, grid_code (record { standard = "CHINA-MV480-STD"; country = "China" }))
    ∷ (104, grid_code (record { standard = "Mexico-MV480"; country = "Mexico" }))
    ∷ (105, grid_code (record { standard = "Malaysian"; country = "Malaysia" }))
    ∷ (106, grid_code (record { standard = "Malaysian-MV480"; country = "Malaysia" }))
    ∷ (107, grid_code (record { standard = "KENYA_ETHIOPIA"; country = "East Africa" }))
    ∷ (108, grid_code (record { standard = "KENYA_ETHIOPIA-MV480"; country = "East Africa" }))
    ∷ (109, grid_code (record { standard = "G59-England-MV800"; country = "UK" }))
    ∷ (110, grid_code (record { standard = "NIGERIA"; country = "Nigeria" }))
    ∷ (111, grid_code (record { standard = "NIGERIA-MV480"; country = "Nigeria" }))
    ∷ (112, grid_code (record { standard = "DUBAI"; country = "Dubai" }))
    ∷ (113, grid_code (record { standard = "DUBAI-MV480"; country = "Dubai" }))
    ∷ (114, grid_code (record { standard = "Northern Ireland"; country = "Northern Ireland" }))
    ∷ (
      115,
      grid_code (record { standard = "Northern Ireland-MV480"; country = "Northern Ireland" }),
    )
    ∷ (116, grid_code (record { standard = "Cameroon"; country = "Cameroon" }))
    ∷ (117, grid_code (record { standard = "Cameroon-MV480"; country = "Cameroon" }))
    ∷ (118, grid_code (record { standard = "Jordan Distribution"; country = "Jordan" }))
    ∷ (119, grid_code (record { standard = "Jordan Distribution-MV480"; country = "Jordan" }))
    ∷ (120, grid_code (record { standard = "Custom MV600-50Hz"; country = "Custom" }))
    ∷ (121, grid_code (record { standard = "AS4777-MV800"; country = "Australia" }))
    ∷ (122, grid_code (record { standard = "INDIA-MV800"; country = "India" }))
    ∷ (123, grid_code (record { standard = "IEC61727-MV800"; country = "General" }))
    ∷ (124, grid_code (record { standard = "BDEW-MV800"; country = "Germany" }))
    ∷ (125, grid_code (record { standard = "ABNT NBR 16149-MV800"; country = "Brazil" }))
    ∷ (126, grid_code (record { standard = "UTE C 15-712-1-MV800"; country = "France" }))
    ∷ (127, grid_code (record { standard = "Chile-MV800"; country = "Chile" }))
    ∷ (128, grid_code (record { standard = "Mexico-MV800"; country = "Mexico" }))
    ∷ (129, grid_code (record { standard = "EN50438-TR-MV800"; country = "Turkey" }))
    ∷ (130, grid_code (record { standard = "TAI-PEA-MV800"; country = "Thailand" }))
    ∷ (131, grid_code (record { standard = "Philippines-MV800"; country = "Philippines" }))
    ∷ (132, grid_code (record { standard = "Malaysian-MV800"; country = "Malaysia" }))
    ∷ (133, grid_code (record { standard = "NRS-097-2-1-MV800"; country = "South Africa" }))
    ∷ (134, grid_code (record { standard = "SA_RPPs-MV800"; country = "South Africa" }))
    ∷ []
