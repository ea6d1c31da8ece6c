-- ===== src/Cdrom/Ecc/Qoffsets.antt =====
-- cdrom_file::qoffsets of mame-chd-src/src/lib/util/cdrom.cpp, a table of the error correction.
use libchdman_rs.Prelude.{ℕ, List, [], ◌∷◌}

-- cdrom_file::qoffsets: for each byte, the offsets that it is computed from.
unfoldable pub qoffsets : List (List ℕ)
qoffsets =
    (0 ∷ 88 ∷ 176 ∷ 264 ∷ 352 ∷ 440 ∷ 528 ∷ 616 ∷ 704 ∷ 792 ∷ 880 ∷ 968 ∷ 1056 ∷ 1144 ∷ 1232 ∷ 1320
      ∷ 1408 ∷ 1496 ∷ 1584 ∷ 1672 ∷ 1760 ∷ 1848 ∷ 1936 ∷ 2024 ∷ 2112 ∷ 2200 ∷ 52 ∷ 140 ∷ 228 ∷ 316
      ∷ 404 ∷ 492 ∷ 580 ∷ 668 ∷ 756 ∷ 844 ∷ 932 ∷ 1020 ∷ 1108 ∷ 1196 ∷ 1284 ∷ 1372 ∷ 1460 ∷ [])
    ∷ (1 ∷ 89 ∷ 177 ∷ 265 ∷ 353 ∷ 441 ∷ 529 ∷ 617 ∷ 705 ∷ 793 ∷ 881 ∷ 969 ∷ 1057 ∷ 1145 ∷ 1233
        ∷ 1321 ∷ 1409 ∷ 1497 ∷ 1585 ∷ 1673 ∷ 1761 ∷ 1849 ∷ 1937 ∷ 2025 ∷ 2113 ∷ 2201 ∷ 53 ∷ 141
        ∷ 229 ∷ 317 ∷ 405 ∷ 493 ∷ 581 ∷ 669 ∷ 757 ∷ 845 ∷ 933 ∷ 1021 ∷ 1109 ∷ 1197 ∷ 1285 ∷ 1373
        ∷ 1461 ∷ [])
    ∷ (86 ∷ 174 ∷ 262 ∷ 350 ∷ 438 ∷ 526 ∷ 614 ∷ 702 ∷ 790 ∷ 878 ∷ 966 ∷ 1054 ∷ 1142 ∷ 1230 ∷ 1318
        ∷ 1406 ∷ 1494 ∷ 1582 ∷ 1670 ∷ 1758 ∷ 1846 ∷ 1934 ∷ 2022 ∷ 2110 ∷ 2198 ∷ 50 ∷ 138 ∷ 226 ∷ 314
        ∷ 402 ∷ 490 ∷ 578 ∷ 666 ∷ 754 ∷ 842 ∷ 930 ∷ 1018 ∷ 1106 ∷ 1194 ∷ 1282 ∷ 1370 ∷ 1458 ∷ 1546
        ∷ [])
    ∷ (87 ∷ 175 ∷ 263 ∷ 351 ∷ 439 ∷ 527 ∷ 615 ∷ 703 ∷ 791 ∷ 879 ∷ 967 ∷ 1055 ∷ 1143 ∷ 1231 ∷ 1319
        ∷ 1407 ∷ 1495 ∷ 1583 ∷ 1671 ∷ 1759 ∷ 1847 ∷ 1935 ∷ 2023 ∷ 2111 ∷ 2199 ∷ 51 ∷ 139 ∷ 227 ∷ 315
        ∷ 403 ∷ 491 ∷ 579 ∷ 667 ∷ 755 ∷ 843 ∷ 931 ∷ 1019 ∷ 1107 ∷ 1195 ∷ 1283 ∷ 1371 ∷ 1459 ∷ 1547
        ∷ [])
    ∷ (172 ∷ 260 ∷ 348 ∷ 436 ∷ 524 ∷ 612 ∷ 700 ∷ 788 ∷ 876 ∷ 964 ∷ 1052 ∷ 1140 ∷ 1228 ∷ 1316 ∷ 1404
        ∷ 1492 ∷ 1580 ∷ 1668 ∷ 1756 ∷ 1844 ∷ 1932 ∷ 2020 ∷ 2108 ∷ 2196 ∷ 48 ∷ 136 ∷ 224 ∷ 312 ∷ 400
        ∷ 488 ∷ 576 ∷ 664 ∷ 752 ∷ 840 ∷ 928 ∷ 1016 ∷ 1104 ∷ 1192 ∷ 1280 ∷ 1368 ∷ 1456 ∷ 1544 ∷ 1632
        ∷ [])
    ∷ (173 ∷ 261 ∷ 349 ∷ 437 ∷ 525 ∷ 613 ∷ 701 ∷ 789 ∷ 877 ∷ 965 ∷ 1053 ∷ 1141 ∷ 1229 ∷ 1317 ∷ 1405
        ∷ 1493 ∷ 1581 ∷ 1669 ∷ 1757 ∷ 1845 ∷ 1933 ∷ 2021 ∷ 2109 ∷ 2197 ∷ 49 ∷ 137 ∷ 225 ∷ 313 ∷ 401
        ∷ 489 ∷ 577 ∷ 665 ∷ 753 ∷ 841 ∷ 929 ∷ 1017 ∷ 1105 ∷ 1193 ∷ 1281 ∷ 1369 ∷ 1457 ∷ 1545 ∷ 1633
        ∷ [])
    ∷ (258 ∷ 346 ∷ 434 ∷ 522 ∷ 610 ∷ 698 ∷ 786 ∷ 874 ∷ 962 ∷ 1050 ∷ 1138 ∷ 1226 ∷ 1314 ∷ 1402 ∷ 1490
        ∷ 1578 ∷ 1666 ∷ 1754 ∷ 1842 ∷ 1930 ∷ 2018 ∷ 2106 ∷ 2194 ∷ 46 ∷ 134 ∷ 222 ∷ 310 ∷ 398 ∷ 486
        ∷ 574 ∷ 662 ∷ 750 ∷ 838 ∷ 926 ∷ 1014 ∷ 1102 ∷ 1190 ∷ 1278 ∷ 1366 ∷ 1454 ∷ 1542 ∷ 1630 ∷ 1718
        ∷ [])
    ∷ (259 ∷ 347 ∷ 435 ∷ 523 ∷ 611 ∷ 699 ∷ 787 ∷ 875 ∷ 963 ∷ 1051 ∷ 1139 ∷ 1227 ∷ 1315 ∷ 1403 ∷ 1491
        ∷ 1579 ∷ 1667 ∷ 1755 ∷ 1843 ∷ 1931 ∷ 2019 ∷ 2107 ∷ 2195 ∷ 47 ∷ 135 ∷ 223 ∷ 311 ∷ 399 ∷ 487
        ∷ 575 ∷ 663 ∷ 751 ∷ 839 ∷ 927 ∷ 1015 ∷ 1103 ∷ 1191 ∷ 1279 ∷ 1367 ∷ 1455 ∷ 1543 ∷ 1631 ∷ 1719
        ∷ [])
    ∷ (344 ∷ 432 ∷ 520 ∷ 608 ∷ 696 ∷ 784 ∷ 872 ∷ 960 ∷ 1048 ∷ 1136 ∷ 1224 ∷ 1312 ∷ 1400 ∷ 1488
        ∷ 1576 ∷ 1664 ∷ 1752 ∷ 1840 ∷ 1928 ∷ 2016 ∷ 2104 ∷ 2192 ∷ 44 ∷ 132 ∷ 220 ∷ 308 ∷ 396 ∷ 484
        ∷ 572 ∷ 660 ∷ 748 ∷ 836 ∷ 924 ∷ 1012 ∷ 1100 ∷ 1188 ∷ 1276 ∷ 1364 ∷ 1452 ∷ 1540 ∷ 1628 ∷ 1716
        ∷ 1804 ∷ [])
    ∷ (345 ∷ 433 ∷ 521 ∷ 609 ∷ 697 ∷ 785 ∷ 873 ∷ 961 ∷ 1049 ∷ 1137 ∷ 1225 ∷ 1313 ∷ 1401 ∷ 1489
        ∷ 1577 ∷ 1665 ∷ 1753 ∷ 1841 ∷ 1929 ∷ 2017 ∷ 2105 ∷ 2193 ∷ 45 ∷ 133 ∷ 221 ∷ 309 ∷ 397 ∷ 485
        ∷ 573 ∷ 661 ∷ 749 ∷ 837 ∷ 925 ∷ 1013 ∷ 1101 ∷ 1189 ∷ 1277 ∷ 1365 ∷ 1453 ∷ 1541 ∷ 1629 ∷ 1717
        ∷ 1805 ∷ [])
    ∷ (430 ∷ 518 ∷ 606 ∷ 694 ∷ 782 ∷ 870 ∷ 958 ∷ 1046 ∷ 1134 ∷ 1222 ∷ 1310 ∷ 1398 ∷ 1486 ∷ 1574
        ∷ 1662 ∷ 1750 ∷ 1838 ∷ 1926 ∷ 2014 ∷ 2102 ∷ 2190 ∷ 42 ∷ 130 ∷ 218 ∷ 306 ∷ 394 ∷ 482 ∷ 570
        ∷ 658 ∷ 746 ∷ 834 ∷ 922 ∷ 1010 ∷ 1098 ∷ 1186 ∷ 1274 ∷ 1362 ∷ 1450 ∷ 1538 ∷ 1626 ∷ 1714
        ∷ 1802 ∷ 1890 ∷ [])
    ∷ (431 ∷ 519 ∷ 607 ∷ 695 ∷ 783 ∷ 871 ∷ 959 ∷ 1047 ∷ 1135 ∷ 1223 ∷ 1311 ∷ 1399 ∷ 1487 ∷ 1575
        ∷ 1663 ∷ 1751 ∷ 1839 ∷ 1927 ∷ 2015 ∷ 2103 ∷ 2191 ∷ 43 ∷ 131 ∷ 219 ∷ 307 ∷ 395 ∷ 483 ∷ 571
        ∷ 659 ∷ 747 ∷ 835 ∷ 923 ∷ 1011 ∷ 1099 ∷ 1187 ∷ 1275 ∷ 1363 ∷ 1451 ∷ 1539 ∷ 1627 ∷ 1715
        ∷ 1803 ∷ 1891 ∷ [])
    ∷ (516 ∷ 604 ∷ 692 ∷ 780 ∷ 868 ∷ 956 ∷ 1044 ∷ 1132 ∷ 1220 ∷ 1308 ∷ 1396 ∷ 1484 ∷ 1572 ∷ 1660
        ∷ 1748 ∷ 1836 ∷ 1924 ∷ 2012 ∷ 2100 ∷ 2188 ∷ 40 ∷ 128 ∷ 216 ∷ 304 ∷ 392 ∷ 480 ∷ 568 ∷ 656
        ∷ 744 ∷ 832 ∷ 920 ∷ 1008 ∷ 1096 ∷ 1184 ∷ 1272 ∷ 1360 ∷ 1448 ∷ 1536 ∷ 1624 ∷ 1712 ∷ 1800
        ∷ 1888 ∷ 1976 ∷ [])
    ∷ (517 ∷ 605 ∷ 693 ∷ 781 ∷ 869 ∷ 957 ∷ 1045 ∷ 1133 ∷ 1221 ∷ 1309 ∷ 1397 ∷ 1485 ∷ 1573 ∷ 1661
        ∷ 1749 ∷ 1837 ∷ 1925 ∷ 2013 ∷ 2101 ∷ 2189 ∷ 41 ∷ 129 ∷ 217 ∷ 305 ∷ 393 ∷ 481 ∷ 569 ∷ 657
        ∷ 745 ∷ 833 ∷ 921 ∷ 1009 ∷ 1097 ∷ 1185 ∷ 1273 ∷ 1361 ∷ 1449 ∷ 1537 ∷ 1625 ∷ 1713 ∷ 1801
        ∷ 1889 ∷ 1977 ∷ [])
    ∷ (602 ∷ 690 ∷ 778 ∷ 866 ∷ 954 ∷ 1042 ∷ 1130 ∷ 1218 ∷ 1306 ∷ 1394 ∷ 1482 ∷ 1570 ∷ 1658 ∷ 1746
        ∷ 1834 ∷ 1922 ∷ 2010 ∷ 2098 ∷ 2186 ∷ 38 ∷ 126 ∷ 214 ∷ 302 ∷ 390 ∷ 478 ∷ 566 ∷ 654 ∷ 742
        ∷ 830 ∷ 918 ∷ 1006 ∷ 1094 ∷ 1182 ∷ 1270 ∷ 1358 ∷ 1446 ∷ 1534 ∷ 1622 ∷ 1710 ∷ 1798 ∷ 1886
        ∷ 1974 ∷ 2062 ∷ [])
    ∷ (603 ∷ 691 ∷ 779 ∷ 867 ∷ 955 ∷ 1043 ∷ 1131 ∷ 1219 ∷ 1307 ∷ 1395 ∷ 1483 ∷ 1571 ∷ 1659 ∷ 1747
        ∷ 1835 ∷ 1923 ∷ 2011 ∷ 2099 ∷ 2187 ∷ 39 ∷ 127 ∷ 215 ∷ 303 ∷ 391 ∷ 479 ∷ 567 ∷ 655 ∷ 743
        ∷ 831 ∷ 919 ∷ 1007 ∷ 1095 ∷ 1183 ∷ 1271 ∷ 1359 ∷ 1447 ∷ 1535 ∷ 1623 ∷ 1711 ∷ 1799 ∷ 1887
        ∷ 1975 ∷ 2063 ∷ [])
    ∷ (688 ∷ 776 ∷ 864 ∷ 952 ∷ 1040 ∷ 1128 ∷ 1216 ∷ 1304 ∷ 1392 ∷ 1480 ∷ 1568 ∷ 1656 ∷ 1744 ∷ 1832
        ∷ 1920 ∷ 2008 ∷ 2096 ∷ 2184 ∷ 36 ∷ 124 ∷ 212 ∷ 300 ∷ 388 ∷ 476 ∷ 564 ∷ 652 ∷ 740 ∷ 828 ∷ 916
        ∷ 1004 ∷ 1092 ∷ 1180 ∷ 1268 ∷ 1356 ∷ 1444 ∷ 1532 ∷ 1620 ∷ 1708 ∷ 1796 ∷ 1884 ∷ 1972 ∷ 2060
        ∷ 2148 ∷ [])
    ∷ (689 ∷ 777 ∷ 865 ∷ 953 ∷ 1041 ∷ 1129 ∷ 1217 ∷ 1305 ∷ 1393 ∷ 1481 ∷ 1569 ∷ 1657 ∷ 1745 ∷ 1833
        ∷ 1921 ∷ 2009 ∷ 2097 ∷ 2185 ∷ 37 ∷ 125 ∷ 213 ∷ 301 ∷ 389 ∷ 477 ∷ 565 ∷ 653 ∷ 741 ∷ 829 ∷ 917
        ∷ 1005 ∷ 1093 ∷ 1181 ∷ 1269 ∷ 1357 ∷ 1445 ∷ 1533 ∷ 1621 ∷ 1709 ∷ 1797 ∷ 1885 ∷ 1973 ∷ 2061
        ∷ 2149 ∷ [])
    ∷ (774 ∷ 862 ∷ 950 ∷ 1038 ∷ 1126 ∷ 1214 ∷ 1302 ∷ 1390 ∷ 1478 ∷ 1566 ∷ 1654 ∷ 1742 ∷ 1830 ∷ 1918
        ∷ 2006 ∷ 2094 ∷ 2182 ∷ 34 ∷ 122 ∷ 210 ∷ 298 ∷ 386 ∷ 474 ∷ 562 ∷ 650 ∷ 738 ∷ 826 ∷ 914 ∷ 1002
        ∷ 1090 ∷ 1178 ∷ 1266 ∷ 1354 ∷ 1442 ∷ 1530 ∷ 1618 ∷ 1706 ∷ 1794 ∷ 1882 ∷ 1970 ∷ 2058 ∷ 2146
        ∷ 2234 ∷ [])
    ∷ (775 ∷ 863 ∷ 951 ∷ 1039 ∷ 1127 ∷ 1215 ∷ 1303 ∷ 1391 ∷ 1479 ∷ 1567 ∷ 1655 ∷ 1743 ∷ 1831 ∷ 1919
        ∷ 2007 ∷ 2095 ∷ 2183 ∷ 35 ∷ 123 ∷ 211 ∷ 299 ∷ 387 ∷ 475 ∷ 563 ∷ 651 ∷ 739 ∷ 827 ∷ 915 ∷ 1003
        ∷ 1091 ∷ 1179 ∷ 1267 ∷ 1355 ∷ 1443 ∷ 1531 ∷ 1619 ∷ 1707 ∷ 1795 ∷ 1883 ∷ 1971 ∷ 2059 ∷ 2147
        ∷ 2235 ∷ [])
    ∷ (860 ∷ 948 ∷ 1036 ∷ 1124 ∷ 1212 ∷ 1300 ∷ 1388 ∷ 1476 ∷ 1564 ∷ 1652 ∷ 1740 ∷ 1828 ∷ 1916 ∷ 2004
        ∷ 2092 ∷ 2180 ∷ 32 ∷ 120 ∷ 208 ∷ 296 ∷ 384 ∷ 472 ∷ 560 ∷ 648 ∷ 736 ∷ 824 ∷ 912 ∷ 1000 ∷ 1088
        ∷ 1176 ∷ 1264 ∷ 1352 ∷ 1440 ∷ 1528 ∷ 1616 ∷ 1704 ∷ 1792 ∷ 1880 ∷ 1968 ∷ 2056 ∷ 2144 ∷ 2232
        ∷ 84 ∷ [])
    ∷ (861 ∷ 949 ∷ 1037 ∷ 1125 ∷ 1213 ∷ 1301 ∷ 1389 ∷ 1477 ∷ 1565 ∷ 1653 ∷ 1741 ∷ 1829 ∷ 1917 ∷ 2005
        ∷ 2093 ∷ 2181 ∷ 33 ∷ 121 ∷ 209 ∷ 297 ∷ 385 ∷ 473 ∷ 561 ∷ 649 ∷ 737 ∷ 825 ∷ 913 ∷ 1001 ∷ 1089
        ∷ 1177 ∷ 1265 ∷ 1353 ∷ 1441 ∷ 1529 ∷ 1617 ∷ 1705 ∷ 1793 ∷ 1881 ∷ 1969 ∷ 2057 ∷ 2145 ∷ 2233
        ∷ 85 ∷ [])
    ∷ (946 ∷ 1034 ∷ 1122 ∷ 1210 ∷ 1298 ∷ 1386 ∷ 1474 ∷ 1562 ∷ 1650 ∷ 1738 ∷ 1826 ∷ 1914 ∷ 2002
        ∷ 2090 ∷ 2178 ∷ 30 ∷ 118 ∷ 206 ∷ 294 ∷ 382 ∷ 470 ∷ 558 ∷ 646 ∷ 734 ∷ 822 ∷ 910 ∷ 998 ∷ 1086
        ∷ 1174 ∷ 1262 ∷ 1350 ∷ 1438 ∷ 1526 ∷ 1614 ∷ 1702 ∷ 1790 ∷ 1878 ∷ 1966 ∷ 2054 ∷ 2142 ∷ 2230
        ∷ 82 ∷ 170 ∷ [])
    ∷ (947 ∷ 1035 ∷ 1123 ∷ 1211 ∷ 1299 ∷ 1387 ∷ 1475 ∷ 1563 ∷ 1651 ∷ 1739 ∷ 1827 ∷ 1915 ∷ 2003
        ∷ 2091 ∷ 2179 ∷ 31 ∷ 119 ∷ 207 ∷ 295 ∷ 383 ∷ 471 ∷ 559 ∷ 647 ∷ 735 ∷ 823 ∷ 911 ∷ 999 ∷ 1087
        ∷ 1175 ∷ 1263 ∷ 1351 ∷ 1439 ∷ 1527 ∷ 1615 ∷ 1703 ∷ 1791 ∷ 1879 ∷ 1967 ∷ 2055 ∷ 2143 ∷ 2231
        ∷ 83 ∷ 171 ∷ [])
    ∷ (1032 ∷ 1120 ∷ 1208 ∷ 1296 ∷ 1384 ∷ 1472 ∷ 1560 ∷ 1648 ∷ 1736 ∷ 1824 ∷ 1912 ∷ 2000 ∷ 2088
        ∷ 2176 ∷ 28 ∷ 116 ∷ 204 ∷ 292 ∷ 380 ∷ 468 ∷ 556 ∷ 644 ∷ 732 ∷ 820 ∷ 908 ∷ 996 ∷ 1084 ∷ 1172
        ∷ 1260 ∷ 1348 ∷ 1436 ∷ 1524 ∷ 1612 ∷ 1700 ∷ 1788 ∷ 1876 ∷ 1964 ∷ 2052 ∷ 2140 ∷ 2228 ∷ 80
        ∷ 168 ∷ 256 ∷ [])
    ∷ (1033 ∷ 1121 ∷ 1209 ∷ 1297 ∷ 1385 ∷ 1473 ∷ 1561 ∷ 1649 ∷ 1737 ∷ 1825 ∷ 1913 ∷ 2001 ∷ 2089
        ∷ 2177 ∷ 29 ∷ 117 ∷ 205 ∷ 293 ∷ 381 ∷ 469 ∷ 557 ∷ 645 ∷ 733 ∷ 821 ∷ 909 ∷ 997 ∷ 1085 ∷ 1173
        ∷ 1261 ∷ 1349 ∷ 1437 ∷ 1525 ∷ 1613 ∷ 1701 ∷ 1789 ∷ 1877 ∷ 1965 ∷ 2053 ∷ 2141 ∷ 2229 ∷ 81
        ∷ 169 ∷ 257 ∷ [])
    ∷ (1118 ∷ 1206 ∷ 1294 ∷ 1382 ∷ 1470 ∷ 1558 ∷ 1646 ∷ 1734 ∷ 1822 ∷ 1910 ∷ 1998 ∷ 2086 ∷ 2174 ∷ 26
        ∷ 114 ∷ 202 ∷ 290 ∷ 378 ∷ 466 ∷ 554 ∷ 642 ∷ 730 ∷ 818 ∷ 906 ∷ 994 ∷ 1082 ∷ 1170 ∷ 1258
        ∷ 1346 ∷ 1434 ∷ 1522 ∷ 1610 ∷ 1698 ∷ 1786 ∷ 1874 ∷ 1962 ∷ 2050 ∷ 2138 ∷ 2226 ∷ 78 ∷ 166
        ∷ 254 ∷ 342 ∷ [])
    ∷ (1119 ∷ 1207 ∷ 1295 ∷ 1383 ∷ 1471 ∷ 1559 ∷ 1647 ∷ 1735 ∷ 1823 ∷ 1911 ∷ 1999 ∷ 2087 ∷ 2175 ∷ 27
        ∷ 115 ∷ 203 ∷ 291 ∷ 379 ∷ 467 ∷ 555 ∷ 643 ∷ 731 ∷ 819 ∷ 907 ∷ 995 ∷ 1083 ∷ 1171 ∷ 1259
        ∷ 1347 ∷ 1435 ∷ 1523 ∷ 1611 ∷ 1699 ∷ 1787 ∷ 1875 ∷ 1963 ∷ 2051 ∷ 2139 ∷ 2227 ∷ 79 ∷ 167
        ∷ 255 ∷ 343 ∷ [])
    ∷ (1204 ∷ 1292 ∷ 1380 ∷ 1468 ∷ 1556 ∷ 1644 ∷ 1732 ∷ 1820 ∷ 1908 ∷ 1996 ∷ 2084 ∷ 2172 ∷ 24 ∷ 112
        ∷ 200 ∷ 288 ∷ 376 ∷ 464 ∷ 552 ∷ 640 ∷ 728 ∷ 816 ∷ 904 ∷ 992 ∷ 1080 ∷ 1168 ∷ 1256 ∷ 1344
        ∷ 1432 ∷ 1520 ∷ 1608 ∷ 1696 ∷ 1784 ∷ 1872 ∷ 1960 ∷ 2048 ∷ 2136 ∷ 2224 ∷ 76 ∷ 164 ∷ 252 ∷ 340
        ∷ 428 ∷ [])
    ∷ (1205 ∷ 1293 ∷ 1381 ∷ 1469 ∷ 1557 ∷ 1645 ∷ 1733 ∷ 1821 ∷ 1909 ∷ 1997 ∷ 2085 ∷ 2173 ∷ 25 ∷ 113
        ∷ 201 ∷ 289 ∷ 377 ∷ 465 ∷ 553 ∷ 641 ∷ 729 ∷ 817 ∷ 905 ∷ 993 ∷ 1081 ∷ 1169 ∷ 1257 ∷ 1345
        ∷ 1433 ∷ 1521 ∷ 1609 ∷ 1697 ∷ 1785 ∷ 1873 ∷ 1961 ∷ 2049 ∷ 2137 ∷ 2225 ∷ 77 ∷ 165 ∷ 253 ∷ 341
        ∷ 429 ∷ [])
    ∷ (1290 ∷ 1378 ∷ 1466 ∷ 1554 ∷ 1642 ∷ 1730 ∷ 1818 ∷ 1906 ∷ 1994 ∷ 2082 ∷ 2170 ∷ 22 ∷ 110 ∷ 198
        ∷ 286 ∷ 374 ∷ 462 ∷ 550 ∷ 638 ∷ 726 ∷ 814 ∷ 902 ∷ 990 ∷ 1078 ∷ 1166 ∷ 1254 ∷ 1342 ∷ 1430
        ∷ 1518 ∷ 1606 ∷ 1694 ∷ 1782 ∷ 1870 ∷ 1958 ∷ 2046 ∷ 2134 ∷ 2222 ∷ 74 ∷ 162 ∷ 250 ∷ 338 ∷ 426
        ∷ 514 ∷ [])
    ∷ (1291 ∷ 1379 ∷ 1467 ∷ 1555 ∷ 1643 ∷ 1731 ∷ 1819 ∷ 1907 ∷ 1995 ∷ 2083 ∷ 2171 ∷ 23 ∷ 111 ∷ 199
        ∷ 287 ∷ 375 ∷ 463 ∷ 551 ∷ 639 ∷ 727 ∷ 815 ∷ 903 ∷ 991 ∷ 1079 ∷ 1167 ∷ 1255 ∷ 1343 ∷ 1431
        ∷ 1519 ∷ 1607 ∷ 1695 ∷ 1783 ∷ 1871 ∷ 1959 ∷ 2047 ∷ 2135 ∷ 2223 ∷ 75 ∷ 163 ∷ 251 ∷ 339 ∷ 427
        ∷ 515 ∷ [])
    ∷ (1376 ∷ 1464 ∷ 1552 ∷ 1640 ∷ 1728 ∷ 1816 ∷ 1904 ∷ 1992 ∷ 2080 ∷ 2168 ∷ 20 ∷ 108 ∷ 196 ∷ 284
        ∷ 372 ∷ 460 ∷ 548 ∷ 636 ∷ 724 ∷ 812 ∷ 900 ∷ 988 ∷ 1076 ∷ 1164 ∷ 1252 ∷ 1340 ∷ 1428 ∷ 1516
        ∷ 1604 ∷ 1692 ∷ 1780 ∷ 1868 ∷ 1956 ∷ 2044 ∷ 2132 ∷ 2220 ∷ 72 ∷ 160 ∷ 248 ∷ 336 ∷ 424 ∷ 512
        ∷ 600 ∷ [])
    ∷ (1377 ∷ 1465 ∷ 1553 ∷ 1641 ∷ 1729 ∷ 1817 ∷ 1905 ∷ 1993 ∷ 2081 ∷ 2169 ∷ 21 ∷ 109 ∷ 197 ∷ 285
        ∷ 373 ∷ 461 ∷ 549 ∷ 637 ∷ 725 ∷ 813 ∷ 901 ∷ 989 ∷ 1077 ∷ 1165 ∷ 1253 ∷ 1341 ∷ 1429 ∷ 1517
        ∷ 1605 ∷ 1693 ∷ 1781 ∷ 1869 ∷ 1957 ∷ 2045 ∷ 2133 ∷ 2221 ∷ 73 ∷ 161 ∷ 249 ∷ 337 ∷ 425 ∷ 513
        ∷ 601 ∷ [])
    ∷ (1462 ∷ 1550 ∷ 1638 ∷ 1726 ∷ 1814 ∷ 1902 ∷ 1990 ∷ 2078 ∷ 2166 ∷ 18 ∷ 106 ∷ 194 ∷ 282 ∷ 370
        ∷ 458 ∷ 546 ∷ 634 ∷ 722 ∷ 810 ∷ 898 ∷ 986 ∷ 1074 ∷ 1162 ∷ 1250 ∷ 1338 ∷ 1426 ∷ 1514 ∷ 1602
        ∷ 1690 ∷ 1778 ∷ 1866 ∷ 1954 ∷ 2042 ∷ 2130 ∷ 2218 ∷ 70 ∷ 158 ∷ 246 ∷ 334 ∷ 422 ∷ 510 ∷ 598
        ∷ 686 ∷ [])
    ∷ (1463 ∷ 1551 ∷ 1639 ∷ 1727 ∷ 1815 ∷ 1903 ∷ 1991 ∷ 2079 ∷ 2167 ∷ 19 ∷ 107 ∷ 195 ∷ 283 ∷ 371
        ∷ 459 ∷ 547 ∷ 635 ∷ 723 ∷ 811 ∷ 899 ∷ 987 ∷ 1075 ∷ 1163 ∷ 1251 ∷ 1339 ∷ 1427 ∷ 1515 ∷ 1603
        ∷ 1691 ∷ 1779 ∷ 1867 ∷ 1955 ∷ 2043 ∷ 2131 ∷ 2219 ∷ 71 ∷ 159 ∷ 247 ∷ 335 ∷ 423 ∷ 511 ∷ 599
        ∷ 687 ∷ [])
    ∷ (1548 ∷ 1636 ∷ 1724 ∷ 1812 ∷ 1900 ∷ 1988 ∷ 2076 ∷ 2164 ∷ 16 ∷ 104 ∷ 192 ∷ 280 ∷ 368 ∷ 456
        ∷ 544 ∷ 632 ∷ 720 ∷ 808 ∷ 896 ∷ 984 ∷ 1072 ∷ 1160 ∷ 1248 ∷ 1336 ∷ 1424 ∷ 1512 ∷ 1600 ∷ 1688
        ∷ 1776 ∷ 1864 ∷ 1952 ∷ 2040 ∷ 2128 ∷ 2216 ∷ 68 ∷ 156 ∷ 244 ∷ 332 ∷ 420 ∷ 508 ∷ 596 ∷ 684
        ∷ 772 ∷ [])
    ∷ (1549 ∷ 1637 ∷ 1725 ∷ 1813 ∷ 1901 ∷ 1989 ∷ 2077 ∷ 2165 ∷ 17 ∷ 105 ∷ 193 ∷ 281 ∷ 369 ∷ 457
        ∷ 545 ∷ 633 ∷ 721 ∷ 809 ∷ 897 ∷ 985 ∷ 1073 ∷ 1161 ∷ 1249 ∷ 1337 ∷ 1425 ∷ 1513 ∷ 1601 ∷ 1689
        ∷ 1777 ∷ 1865 ∷ 1953 ∷ 2041 ∷ 2129 ∷ 2217 ∷ 69 ∷ 157 ∷ 245 ∷ 333 ∷ 421 ∷ 509 ∷ 597 ∷ 685
        ∷ 773 ∷ [])
    ∷ (1634 ∷ 1722 ∷ 1810 ∷ 1898 ∷ 1986 ∷ 2074 ∷ 2162 ∷ 14 ∷ 102 ∷ 190 ∷ 278 ∷ 366 ∷ 454 ∷ 542 ∷ 630
        ∷ 718 ∷ 806 ∷ 894 ∷ 982 ∷ 1070 ∷ 1158 ∷ 1246 ∷ 1334 ∷ 1422 ∷ 1510 ∷ 1598 ∷ 1686 ∷ 1774
        ∷ 1862 ∷ 1950 ∷ 2038 ∷ 2126 ∷ 2214 ∷ 66 ∷ 154 ∷ 242 ∷ 330 ∷ 418 ∷ 506 ∷ 594 ∷ 682 ∷ 770
        ∷ 858 ∷ [])
    ∷ (1635 ∷ 1723 ∷ 1811 ∷ 1899 ∷ 1987 ∷ 2075 ∷ 2163 ∷ 15 ∷ 103 ∷ 191 ∷ 279 ∷ 367 ∷ 455 ∷ 543 ∷ 631
        ∷ 719 ∷ 807 ∷ 895 ∷ 983 ∷ 1071 ∷ 1159 ∷ 1247 ∷ 1335 ∷ 1423 ∷ 1511 ∷ 1599 ∷ 1687 ∷ 1775
        ∷ 1863 ∷ 1951 ∷ 2039 ∷ 2127 ∷ 2215 ∷ 67 ∷ 155 ∷ 243 ∷ 331 ∷ 419 ∷ 507 ∷ 595 ∷ 683 ∷ 771
        ∷ 859 ∷ [])
    ∷ (1720 ∷ 1808 ∷ 1896 ∷ 1984 ∷ 2072 ∷ 2160 ∷ 12 ∷ 100 ∷ 188 ∷ 276 ∷ 364 ∷ 452 ∷ 540 ∷ 628 ∷ 716
        ∷ 804 ∷ 892 ∷ 980 ∷ 1068 ∷ 1156 ∷ 1244 ∷ 1332 ∷ 1420 ∷ 1508 ∷ 1596 ∷ 1684 ∷ 1772 ∷ 1860
        ∷ 1948 ∷ 2036 ∷ 2124 ∷ 2212 ∷ 64 ∷ 152 ∷ 240 ∷ 328 ∷ 416 ∷ 504 ∷ 592 ∷ 680 ∷ 768 ∷ 856 ∷ 944
        ∷ [])
    ∷ (1721 ∷ 1809 ∷ 1897 ∷ 1985 ∷ 2073 ∷ 2161 ∷ 13 ∷ 101 ∷ 189 ∷ 277 ∷ 365 ∷ 453 ∷ 541 ∷ 629 ∷ 717
        ∷ 805 ∷ 893 ∷ 981 ∷ 1069 ∷ 1157 ∷ 1245 ∷ 1333 ∷ 1421 ∷ 1509 ∷ 1597 ∷ 1685 ∷ 1773 ∷ 1861
        ∷ 1949 ∷ 2037 ∷ 2125 ∷ 2213 ∷ 65 ∷ 153 ∷ 241 ∷ 329 ∷ 417 ∷ 505 ∷ 593 ∷ 681 ∷ 769 ∷ 857 ∷ 945
        ∷ [])
    ∷ (1806 ∷ 1894 ∷ 1982 ∷ 2070 ∷ 2158 ∷ 10 ∷ 98 ∷ 186 ∷ 274 ∷ 362 ∷ 450 ∷ 538 ∷ 626 ∷ 714 ∷ 802
        ∷ 890 ∷ 978 ∷ 1066 ∷ 1154 ∷ 1242 ∷ 1330 ∷ 1418 ∷ 1506 ∷ 1594 ∷ 1682 ∷ 1770 ∷ 1858 ∷ 1946
        ∷ 2034 ∷ 2122 ∷ 2210 ∷ 62 ∷ 150 ∷ 238 ∷ 326 ∷ 414 ∷ 502 ∷ 590 ∷ 678 ∷ 766 ∷ 854 ∷ 942 ∷ 1030
        ∷ [])
    ∷ (1807 ∷ 1895 ∷ 1983 ∷ 2071 ∷ 2159 ∷ 11 ∷ 99 ∷ 187 ∷ 275 ∷ 363 ∷ 451 ∷ 539 ∷ 627 ∷ 715 ∷ 803
        ∷ 891 ∷ 979 ∷ 1067 ∷ 1155 ∷ 1243 ∷ 1331 ∷ 1419 ∷ 1507 ∷ 1595 ∷ 1683 ∷ 1771 ∷ 1859 ∷ 1947
        ∷ 2035 ∷ 2123 ∷ 2211 ∷ 63 ∷ 151 ∷ 239 ∷ 327 ∷ 415 ∷ 503 ∷ 591 ∷ 679 ∷ 767 ∷ 855 ∷ 943 ∷ 1031
        ∷ [])
    ∷ (1892 ∷ 1980 ∷ 2068 ∷ 2156 ∷ 8 ∷ 96 ∷ 184 ∷ 272 ∷ 360 ∷ 448 ∷ 536 ∷ 624 ∷ 712 ∷ 800 ∷ 888
        ∷ 976 ∷ 1064 ∷ 1152 ∷ 1240 ∷ 1328 ∷ 1416 ∷ 1504 ∷ 1592 ∷ 1680 ∷ 1768 ∷ 1856 ∷ 1944 ∷ 2032
        ∷ 2120 ∷ 2208 ∷ 60 ∷ 148 ∷ 236 ∷ 324 ∷ 412 ∷ 500 ∷ 588 ∷ 676 ∷ 764 ∷ 852 ∷ 940 ∷ 1028 ∷ 1116
        ∷ [])
    ∷ (1893 ∷ 1981 ∷ 2069 ∷ 2157 ∷ 9 ∷ 97 ∷ 185 ∷ 273 ∷ 361 ∷ 449 ∷ 537 ∷ 625 ∷ 713 ∷ 801 ∷ 889
        ∷ 977 ∷ 1065 ∷ 1153 ∷ 1241 ∷ 1329 ∷ 1417 ∷ 1505 ∷ 1593 ∷ 1681 ∷ 1769 ∷ 1857 ∷ 1945 ∷ 2033
        ∷ 2121 ∷ 2209 ∷ 61 ∷ 149 ∷ 237 ∷ 325 ∷ 413 ∷ 501 ∷ 589 ∷ 677 ∷ 765 ∷ 853 ∷ 941 ∷ 1029 ∷ 1117
        ∷ [])
    ∷ (1978 ∷ 2066 ∷ 2154 ∷ 6 ∷ 94 ∷ 182 ∷ 270 ∷ 358 ∷ 446 ∷ 534 ∷ 622 ∷ 710 ∷ 798 ∷ 886 ∷ 974
        ∷ 1062 ∷ 1150 ∷ 1238 ∷ 1326 ∷ 1414 ∷ 1502 ∷ 1590 ∷ 1678 ∷ 1766 ∷ 1854 ∷ 1942 ∷ 2030 ∷ 2118
        ∷ 2206 ∷ 58 ∷ 146 ∷ 234 ∷ 322 ∷ 410 ∷ 498 ∷ 586 ∷ 674 ∷ 762 ∷ 850 ∷ 938 ∷ 1026 ∷ 1114 ∷ 1202
        ∷ [])
    ∷ (1979 ∷ 2067 ∷ 2155 ∷ 7 ∷ 95 ∷ 183 ∷ 271 ∷ 359 ∷ 447 ∷ 535 ∷ 623 ∷ 711 ∷ 799 ∷ 887 ∷ 975
        ∷ 1063 ∷ 1151 ∷ 1239 ∷ 1327 ∷ 1415 ∷ 1503 ∷ 1591 ∷ 1679 ∷ 1767 ∷ 1855 ∷ 1943 ∷ 2031 ∷ 2119
        ∷ 2207 ∷ 59 ∷ 147 ∷ 235 ∷ 323 ∷ 411 ∷ 499 ∷ 587 ∷ 675 ∷ 763 ∷ 851 ∷ 939 ∷ 1027 ∷ 1115 ∷ 1203
        ∷ [])
    ∷ (2064 ∷ 2152 ∷ 4 ∷ 92 ∷ 180 ∷ 268 ∷ 356 ∷ 444 ∷ 532 ∷ 620 ∷ 708 ∷ 796 ∷ 884 ∷ 972 ∷ 1060
        ∷ 1148 ∷ 1236 ∷ 1324 ∷ 1412 ∷ 1500 ∷ 1588 ∷ 1676 ∷ 1764 ∷ 1852 ∷ 1940 ∷ 2028 ∷ 2116 ∷ 2204
        ∷ 56 ∷ 144 ∷ 232 ∷ 320 ∷ 408 ∷ 496 ∷ 584 ∷ 672 ∷ 760 ∷ 848 ∷ 936 ∷ 1024 ∷ 1112 ∷ 1200 ∷ 1288
        ∷ [])
    ∷ (2065 ∷ 2153 ∷ 5 ∷ 93 ∷ 181 ∷ 269 ∷ 357 ∷ 445 ∷ 533 ∷ 621 ∷ 709 ∷ 797 ∷ 885 ∷ 973 ∷ 1061
        ∷ 1149 ∷ 1237 ∷ 1325 ∷ 1413 ∷ 1501 ∷ 1589 ∷ 1677 ∷ 1765 ∷ 1853 ∷ 1941 ∷ 2029 ∷ 2117 ∷ 2205
        ∷ 57 ∷ 145 ∷ 233 ∷ 321 ∷ 409 ∷ 497 ∷ 585 ∷ 673 ∷ 761 ∷ 849 ∷ 937 ∷ 1025 ∷ 1113 ∷ 1201 ∷ 1289
        ∷ [])
    ∷ (2150 ∷ 2 ∷ 90 ∷ 178 ∷ 266 ∷ 354 ∷ 442 ∷ 530 ∷ 618 ∷ 706 ∷ 794 ∷ 882 ∷ 970 ∷ 1058 ∷ 1146
        ∷ 1234 ∷ 1322 ∷ 1410 ∷ 1498 ∷ 1586 ∷ 1674 ∷ 1762 ∷ 1850 ∷ 1938 ∷ 2026 ∷ 2114 ∷ 2202 ∷ 54
        ∷ 142 ∷ 230 ∷ 318 ∷ 406 ∷ 494 ∷ 582 ∷ 670 ∷ 758 ∷ 846 ∷ 934 ∷ 1022 ∷ 1110 ∷ 1198 ∷ 1286
        ∷ 1374 ∷ [])
    ∷ (2151 ∷ 3 ∷ 91 ∷ 179 ∷ 267 ∷ 355 ∷ 443 ∷ 531 ∷ 619 ∷ 707 ∷ 795 ∷ 883 ∷ 971 ∷ 1059 ∷ 1147
        ∷ 1235 ∷ 1323 ∷ 1411 ∷ 1499 ∷ 1587 ∷ 1675 ∷ 1763 ∷ 1851 ∷ 1939 ∷ 2027 ∷ 2115 ∷ 2203 ∷ 55
        ∷ 143 ∷ 231 ∷ 319 ∷ 407 ∷ 495 ∷ 583 ∷ 671 ∷ 759 ∷ 847 ∷ 935 ∷ 1023 ∷ 1111 ∷ 1199 ∷ 1287
        ∷ 1375 ∷ [])
    ∷ []
