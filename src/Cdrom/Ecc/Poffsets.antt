-- ===== src/Cdrom/Ecc/Poffsets.antt =====
-- cdrom_file::poffsets of mame-chd-src/src/lib/util/cdrom.cpp, a table of the error correction.
use libchdman_rs.Prelude.{ℕ, List, [], ◌∷◌}

-- cdrom_file::poffsets: for each byte, the offsets that it is computed from.
unfoldable pub poffsets : List (List ℕ)
poffsets =
    (0 ∷ 86 ∷ 172 ∷ 258 ∷ 344 ∷ 430 ∷ 516 ∷ 602 ∷ 688 ∷ 774 ∷ 860 ∷ 946 ∷ 1032 ∷ 1118 ∷ 1204 ∷ 1290
      ∷ 1376 ∷ 1462 ∷ 1548 ∷ 1634 ∷ 1720 ∷ 1806 ∷ 1892 ∷ 1978 ∷ [])
    ∷ (1 ∷ 87 ∷ 173 ∷ 259 ∷ 345 ∷ 431 ∷ 517 ∷ 603 ∷ 689 ∷ 775 ∷ 861 ∷ 947 ∷ 1033 ∷ 1119 ∷ 1205
        ∷ 1291 ∷ 1377 ∷ 1463 ∷ 1549 ∷ 1635 ∷ 1721 ∷ 1807 ∷ 1893 ∷ 1979 ∷ [])
    ∷ (2 ∷ 88 ∷ 174 ∷ 260 ∷ 346 ∷ 432 ∷ 518 ∷ 604 ∷ 690 ∷ 776 ∷ 862 ∷ 948 ∷ 1034 ∷ 1120 ∷ 1206
        ∷ 1292 ∷ 1378 ∷ 1464 ∷ 1550 ∷ 1636 ∷ 1722 ∷ 1808 ∷ 1894 ∷ 1980 ∷ [])
    ∷ (3 ∷ 89 ∷ 175 ∷ 261 ∷ 347 ∷ 433 ∷ 519 ∷ 605 ∷ 691 ∷ 777 ∷ 863 ∷ 949 ∷ 1035 ∷ 1121 ∷ 1207
        ∷ 1293 ∷ 1379 ∷ 1465 ∷ 1551 ∷ 1637 ∷ 1723 ∷ 1809 ∷ 1895 ∷ 1981 ∷ [])
    ∷ (4 ∷ 90 ∷ 176 ∷ 262 ∷ 348 ∷ 434 ∷ 520 ∷ 606 ∷ 692 ∷ 778 ∷ 864 ∷ 950 ∷ 1036 ∷ 1122 ∷ 1208
        ∷ 1294 ∷ 1380 ∷ 1466 ∷ 1552 ∷ 1638 ∷ 1724 ∷ 1810 ∷ 1896 ∷ 1982 ∷ [])
    ∷ (5 ∷ 91 ∷ 177 ∷ 263 ∷ 349 ∷ 435 ∷ 521 ∷ 607 ∷ 693 ∷ 779 ∷ 865 ∷ 951 ∷ 1037 ∷ 1123 ∷ 1209
        ∷ 1295 ∷ 1381 ∷ 1467 ∷ 1553 ∷ 1639 ∷ 1725 ∷ 1811 ∷ 1897 ∷ 1983 ∷ [])
    ∷ (6 ∷ 92 ∷ 178 ∷ 264 ∷ 350 ∷ 436 ∷ 522 ∷ 608 ∷ 694 ∷ 780 ∷ 866 ∷ 952 ∷ 1038 ∷ 1124 ∷ 1210
        ∷ 1296 ∷ 1382 ∷ 1468 ∷ 1554 ∷ 1640 ∷ 1726 ∷ 1812 ∷ 1898 ∷ 1984 ∷ [])
    ∷ (7 ∷ 93 ∷ 179 ∷ 265 ∷ 351 ∷ 437 ∷ 523 ∷ 609 ∷ 695 ∷ 781 ∷ 867 ∷ 953 ∷ 1039 ∷ 1125 ∷ 1211
        ∷ 1297 ∷ 1383 ∷ 1469 ∷ 1555 ∷ 1641 ∷ 1727 ∷ 1813 ∷ 1899 ∷ 1985 ∷ [])
    ∷ (8 ∷ 94 ∷ 180 ∷ 266 ∷ 352 ∷ 438 ∷ 524 ∷ 610 ∷ 696 ∷ 782 ∷ 868 ∷ 954 ∷ 1040 ∷ 1126 ∷ 1212
        ∷ 1298 ∷ 1384 ∷ 1470 ∷ 1556 ∷ 1642 ∷ 1728 ∷ 1814 ∷ 1900 ∷ 1986 ∷ [])
    ∷ (9 ∷ 95 ∷ 181 ∷ 267 ∷ 353 ∷ 439 ∷ 525 ∷ 611 ∷ 697 ∷ 783 ∷ 869 ∷ 955 ∷ 1041 ∷ 1127 ∷ 1213
        ∷ 1299 ∷ 1385 ∷ 1471 ∷ 1557 ∷ 1643 ∷ 1729 ∷ 1815 ∷ 1901 ∷ 1987 ∷ [])
    ∷ (10 ∷ 96 ∷ 182 ∷ 268 ∷ 354 ∷ 440 ∷ 526 ∷ 612 ∷ 698 ∷ 784 ∷ 870 ∷ 956 ∷ 1042 ∷ 1128 ∷ 1214
        ∷ 1300 ∷ 1386 ∷ 1472 ∷ 1558 ∷ 1644 ∷ 1730 ∷ 1816 ∷ 1902 ∷ 1988 ∷ [])
    ∷ (11 ∷ 97 ∷ 183 ∷ 269 ∷ 355 ∷ 441 ∷ 527 ∷ 613 ∷ 699 ∷ 785 ∷ 871 ∷ 957 ∷ 1043 ∷ 1129 ∷ 1215
        ∷ 1301 ∷ 1387 ∷ 1473 ∷ 1559 ∷ 1645 ∷ 1731 ∷ 1817 ∷ 1903 ∷ 1989 ∷ [])
    ∷ (12 ∷ 98 ∷ 184 ∷ 270 ∷ 356 ∷ 442 ∷ 528 ∷ 614 ∷ 700 ∷ 786 ∷ 872 ∷ 958 ∷ 1044 ∷ 1130 ∷ 1216
        ∷ 1302 ∷ 1388 ∷ 1474 ∷ 1560 ∷ 1646 ∷ 1732 ∷ 1818 ∷ 1904 ∷ 1990 ∷ [])
    ∷ (13 ∷ 99 ∷ 185 ∷ 271 ∷ 357 ∷ 443 ∷ 529 ∷ 615 ∷ 701 ∷ 787 ∷ 873 ∷ 959 ∷ 1045 ∷ 1131 ∷ 1217
        ∷ 1303 ∷ 1389 ∷ 1475 ∷ 1561 ∷ 1647 ∷ 1733 ∷ 1819 ∷ 1905 ∷ 1991 ∷ [])
    ∷ (14 ∷ 100 ∷ 186 ∷ 272 ∷ 358 ∷ 444 ∷ 530 ∷ 616 ∷ 702 ∷ 788 ∷ 874 ∷ 960 ∷ 1046 ∷ 1132 ∷ 1218
        ∷ 1304 ∷ 1390 ∷ 1476 ∷ 1562 ∷ 1648 ∷ 1734 ∷ 1820 ∷ 1906 ∷ 1992 ∷ [])
    ∷ (15 ∷ 101 ∷ 187 ∷ 273 ∷ 359 ∷ 445 ∷ 531 ∷ 617 ∷ 703 ∷ 789 ∷ 875 ∷ 961 ∷ 1047 ∷ 1133 ∷ 1219
        ∷ 1305 ∷ 1391 ∷ 1477 ∷ 1563 ∷ 1649 ∷ 1735 ∷ 1821 ∷ 1907 ∷ 1993 ∷ [])
    ∷ (16 ∷ 102 ∷ 188 ∷ 274 ∷ 360 ∷ 446 ∷ 532 ∷ 618 ∷ 704 ∷ 790 ∷ 876 ∷ 962 ∷ 1048 ∷ 1134 ∷ 1220
        ∷ 1306 ∷ 1392 ∷ 1478 ∷ 1564 ∷ 1650 ∷ 1736 ∷ 1822 ∷ 1908 ∷ 1994 ∷ [])
    ∷ (17 ∷ 103 ∷ 189 ∷ 275 ∷ 361 ∷ 447 ∷ 533 ∷ 619 ∷ 705 ∷ 791 ∷ 877 ∷ 963 ∷ 1049 ∷ 1135 ∷ 1221
        ∷ 1307 ∷ 1393 ∷ 1479 ∷ 1565 ∷ 1651 ∷ 1737 ∷ 1823 ∷ 1909 ∷ 1995 ∷ [])
    ∷ (18 ∷ 104 ∷ 190 ∷ 276 ∷ 362 ∷ 448 ∷ 534 ∷ 620 ∷ 706 ∷ 792 ∷ 878 ∷ 964 ∷ 1050 ∷ 1136 ∷ 1222
        ∷ 1308 ∷ 1394 ∷ 1480 ∷ 1566 ∷ 1652 ∷ 1738 ∷ 1824 ∷ 1910 ∷ 1996 ∷ [])
    ∷ (19 ∷ 105 ∷ 191 ∷ 277 ∷ 363 ∷ 449 ∷ 535 ∷ 621 ∷ 707 ∷ 793 ∷ 879 ∷ 965 ∷ 1051 ∷ 1137 ∷ 1223
        ∷ 1309 ∷ 1395 ∷ 1481 ∷ 1567 ∷ 1653 ∷ 1739 ∷ 1825 ∷ 1911 ∷ 1997 ∷ [])
    ∷ (20 ∷ 106 ∷ 192 ∷ 278 ∷ 364 ∷ 450 ∷ 536 ∷ 622 ∷ 708 ∷ 794 ∷ 880 ∷ 966 ∷ 1052 ∷ 1138 ∷ 1224
        ∷ 1310 ∷ 1396 ∷ 1482 ∷ 1568 ∷ 1654 ∷ 1740 ∷ 1826 ∷ 1912 ∷ 1998 ∷ [])
    ∷ (21 ∷ 107 ∷ 193 ∷ 279 ∷ 365 ∷ 451 ∷ 537 ∷ 623 ∷ 709 ∷ 795 ∷ 881 ∷ 967 ∷ 1053 ∷ 1139 ∷ 1225
        ∷ 1311 ∷ 1397 ∷ 1483 ∷ 1569 ∷ 1655 ∷ 1741 ∷ 1827 ∷ 1913 ∷ 1999 ∷ [])
    ∷ (22 ∷ 108 ∷ 194 ∷ 280 ∷ 366 ∷ 452 ∷ 538 ∷ 624 ∷ 710 ∷ 796 ∷ 882 ∷ 968 ∷ 1054 ∷ 1140 ∷ 1226
        ∷ 1312 ∷ 1398 ∷ 1484 ∷ 1570 ∷ 1656 ∷ 1742 ∷ 1828 ∷ 1914 ∷ 2000 ∷ [])
    ∷ (23 ∷ 109 ∷ 195 ∷ 281 ∷ 367 ∷ 453 ∷ 539 ∷ 625 ∷ 711 ∷ 797 ∷ 883 ∷ 969 ∷ 1055 ∷ 1141 ∷ 1227
        ∷ 1313 ∷ 1399 ∷ 1485 ∷ 1571 ∷ 1657 ∷ 1743 ∷ 1829 ∷ 1915 ∷ 2001 ∷ [])
    ∷ (24 ∷ 110 ∷ 196 ∷ 282 ∷ 368 ∷ 454 ∷ 540 ∷ 626 ∷ 712 ∷ 798 ∷ 884 ∷ 970 ∷ 1056 ∷ 1142 ∷ 1228
        ∷ 1314 ∷ 1400 ∷ 1486 ∷ 1572 ∷ 1658 ∷ 1744 ∷ 1830 ∷ 1916 ∷ 2002 ∷ [])
    ∷ (25 ∷ 111 ∷ 197 ∷ 283 ∷ 369 ∷ 455 ∷ 541 ∷ 627 ∷ 713 ∷ 799 ∷ 885 ∷ 971 ∷ 1057 ∷ 1143 ∷ 1229
        ∷ 1315 ∷ 1401 ∷ 1487 ∷ 1573 ∷ 1659 ∷ 1745 ∷ 1831 ∷ 1917 ∷ 2003 ∷ [])
    ∷ (26 ∷ 112 ∷ 198 ∷ 284 ∷ 370 ∷ 456 ∷ 542 ∷ 628 ∷ 714 ∷ 800 ∷ 886 ∷ 972 ∷ 1058 ∷ 1144 ∷ 1230
        ∷ 1316 ∷ 1402 ∷ 1488 ∷ 1574 ∷ 1660 ∷ 1746 ∷ 1832 ∷ 1918 ∷ 2004 ∷ [])
    ∷ (27 ∷ 113 ∷ 199 ∷ 285 ∷ 371 ∷ 457 ∷ 543 ∷ 629 ∷ 715 ∷ 801 ∷ 887 ∷ 973 ∷ 1059 ∷ 1145 ∷ 1231
        ∷ 1317 ∷ 1403 ∷ 1489 ∷ 1575 ∷ 1661 ∷ 1747 ∷ 1833 ∷ 1919 ∷ 2005 ∷ [])
    ∷ (28 ∷ 114 ∷ 200 ∷ 286 ∷ 372 ∷ 458 ∷ 544 ∷ 630 ∷ 716 ∷ 802 ∷ 888 ∷ 974 ∷ 1060 ∷ 1146 ∷ 1232
        ∷ 1318 ∷ 1404 ∷ 1490 ∷ 1576 ∷ 1662 ∷ 1748 ∷ 1834 ∷ 1920 ∷ 2006 ∷ [])
    ∷ (29 ∷ 115 ∷ 201 ∷ 287 ∷ 373 ∷ 459 ∷ 545 ∷ 631 ∷ 717 ∷ 803 ∷ 889 ∷ 975 ∷ 1061 ∷ 1147 ∷ 1233
        ∷ 1319 ∷ 1405 ∷ 1491 ∷ 1577 ∷ 1663 ∷ 1749 ∷ 1835 ∷ 1921 ∷ 2007 ∷ [])
    ∷ (30 ∷ 116 ∷ 202 ∷ 288 ∷ 374 ∷ 460 ∷ 546 ∷ 632 ∷ 718 ∷ 804 ∷ 890 ∷ 976 ∷ 1062 ∷ 1148 ∷ 1234
        ∷ 1320 ∷ 1406 ∷ 1492 ∷ 1578 ∷ 1664 ∷ 1750 ∷ 1836 ∷ 1922 ∷ 2008 ∷ [])
    ∷ (31 ∷ 117 ∷ 203 ∷ 289 ∷ 375 ∷ 461 ∷ 547 ∷ 633 ∷ 719 ∷ 805 ∷ 891 ∷ 977 ∷ 1063 ∷ 1149 ∷ 1235
        ∷ 1321 ∷ 1407 ∷ 1493 ∷ 1579 ∷ 1665 ∷ 1751 ∷ 1837 ∷ 1923 ∷ 2009 ∷ [])
    ∷ (32 ∷ 118 ∷ 204 ∷ 290 ∷ 376 ∷ 462 ∷ 548 ∷ 634 ∷ 720 ∷ 806 ∷ 892 ∷ 978 ∷ 1064 ∷ 1150 ∷ 1236
        ∷ 1322 ∷ 1408 ∷ 1494 ∷ 1580 ∷ 1666 ∷ 1752 ∷ 1838 ∷ 1924 ∷ 2010 ∷ [])
    ∷ (33 ∷ 119 ∷ 205 ∷ 291 ∷ 377 ∷ 463 ∷ 549 ∷ 635 ∷ 721 ∷ 807 ∷ 893 ∷ 979 ∷ 1065 ∷ 1151 ∷ 1237
        ∷ 1323 ∷ 1409 ∷ 1495 ∷ 1581 ∷ 1667 ∷ 1753 ∷ 1839 ∷ 1925 ∷ 2011 ∷ [])
    ∷ (34 ∷ 120 ∷ 206 ∷ 292 ∷ 378 ∷ 464 ∷ 550 ∷ 636 ∷ 722 ∷ 808 ∷ 894 ∷ 980 ∷ 1066 ∷ 1152 ∷ 1238
        ∷ 1324 ∷ 1410 ∷ 1496 ∷ 1582 ∷ 1668 ∷ 1754 ∷ 1840 ∷ 1926 ∷ 2012 ∷ [])
    ∷ (35 ∷ 121 ∷ 207 ∷ 293 ∷ 379 ∷ 465 ∷ 551 ∷ 637 ∷ 723 ∷ 809 ∷ 895 ∷ 981 ∷ 1067 ∷ 1153 ∷ 1239
        ∷ 1325 ∷ 1411 ∷ 1497 ∷ 1583 ∷ 1669 ∷ 1755 ∷ 1841 ∷ 1927 ∷ 2013 ∷ [])
    ∷ (36 ∷ 122 ∷ 208 ∷ 294 ∷ 380 ∷ 466 ∷ 552 ∷ 638 ∷ 724 ∷ 810 ∷ 896 ∷ 982 ∷ 1068 ∷ 1154 ∷ 1240
        ∷ 1326 ∷ 1412 ∷ 1498 ∷ 1584 ∷ 1670 ∷ 1756 ∷ 1842 ∷ 1928 ∷ 2014 ∷ [])
    ∷ (37 ∷ 123 ∷ 209 ∷ 295 ∷ 381 ∷ 467 ∷ 553 ∷ 639 ∷ 725 ∷ 811 ∷ 897 ∷ 983 ∷ 1069 ∷ 1155 ∷ 1241
        ∷ 1327 ∷ 1413 ∷ 1499 ∷ 1585 ∷ 1671 ∷ 1757 ∷ 1843 ∷ 1929 ∷ 2015 ∷ [])
    ∷ (38 ∷ 124 ∷ 210 ∷ 296 ∷ 382 ∷ 468 ∷ 554 ∷ 640 ∷ 726 ∷ 812 ∷ 898 ∷ 984 ∷ 1070 ∷ 1156 ∷ 1242
        ∷ 1328 ∷ 1414 ∷ 1500 ∷ 1586 ∷ 1672 ∷ 1758 ∷ 1844 ∷ 1930 ∷ 2016 ∷ [])
    ∷ (39 ∷ 125 ∷ 211 ∷ 297 ∷ 383 ∷ 469 ∷ 555 ∷ 641 ∷ 727 ∷ 813 ∷ 899 ∷ 985 ∷ 1071 ∷ 1157 ∷ 1243
        ∷ 1329 ∷ 1415 ∷ 1501 ∷ 1587 ∷ 1673 ∷ 1759 ∷ 1845 ∷ 1931 ∷ 2017 ∷ [])
    ∷ (40 ∷ 126 ∷ 212 ∷ 298 ∷ 384 ∷ 470 ∷ 556 ∷ 642 ∷ 728 ∷ 814 ∷ 900 ∷ 986 ∷ 1072 ∷ 1158 ∷ 1244
        ∷ 1330 ∷ 1416 ∷ 1502 ∷ 1588 ∷ 1674 ∷ 1760 ∷ 1846 ∷ 1932 ∷ 2018 ∷ [])
    ∷ (41 ∷ 127 ∷ 213 ∷ 299 ∷ 385 ∷ 471 ∷ 557 ∷ 643 ∷ 729 ∷ 815 ∷ 901 ∷ 987 ∷ 1073 ∷ 1159 ∷ 1245
        ∷ 1331 ∷ 1417 ∷ 1503 ∷ 1589 ∷ 1675 ∷ 1761 ∷ 1847 ∷ 1933 ∷ 2019 ∷ [])
    ∷ (42 ∷ 128 ∷ 214 ∷ 300 ∷ 386 ∷ 472 ∷ 558 ∷ 644 ∷ 730 ∷ 816 ∷ 902 ∷ 988 ∷ 1074 ∷ 1160 ∷ 1246
        ∷ 1332 ∷ 1418 ∷ 1504 ∷ 1590 ∷ 1676 ∷ 1762 ∷ 1848 ∷ 1934 ∷ 2020 ∷ [])
    ∷ (43 ∷ 129 ∷ 215 ∷ 301 ∷ 387 ∷ 473 ∷ 559 ∷ 645 ∷ 731 ∷ 817 ∷ 903 ∷ 989 ∷ 1075 ∷ 1161 ∷ 1247
        ∷ 1333 ∷ 1419 ∷ 1505 ∷ 1591 ∷ 1677 ∷ 1763 ∷ 1849 ∷ 1935 ∷ 2021 ∷ [])
    ∷ (44 ∷ 130 ∷ 216 ∷ 302 ∷ 388 ∷ 474 ∷ 560 ∷ 646 ∷ 732 ∷ 818 ∷ 904 ∷ 990 ∷ 1076 ∷ 1162 ∷ 1248
        ∷ 1334 ∷ 1420 ∷ 1506 ∷ 1592 ∷ 1678 ∷ 1764 ∷ 1850 ∷ 1936 ∷ 2022 ∷ [])
    ∷ (45 ∷ 131 ∷ 217 ∷ 303 ∷ 389 ∷ 475 ∷ 561 ∷ 647 ∷ 733 ∷ 819 ∷ 905 ∷ 991 ∷ 1077 ∷ 1163 ∷ 1249
        ∷ 1335 ∷ 1421 ∷ 1507 ∷ 1593 ∷ 1679 ∷ 1765 ∷ 1851 ∷ 1937 ∷ 2023 ∷ [])
    ∷ (46 ∷ 132 ∷ 218 ∷ 304 ∷ 390 ∷ 476 ∷ 562 ∷ 648 ∷ 734 ∷ 820 ∷ 906 ∷ 992 ∷ 1078 ∷ 1164 ∷ 1250
        ∷ 1336 ∷ 1422 ∷ 1508 ∷ 1594 ∷ 1680 ∷ 1766 ∷ 1852 ∷ 1938 ∷ 2024 ∷ [])
    ∷ (47 ∷ 133 ∷ 219 ∷ 305 ∷ 391 ∷ 477 ∷ 563 ∷ 649 ∷ 735 ∷ 821 ∷ 907 ∷ 993 ∷ 1079 ∷ 1165 ∷ 1251
        ∷ 1337 ∷ 1423 ∷ 1509 ∷ 1595 ∷ 1681 ∷ 1767 ∷ 1853 ∷ 1939 ∷ 2025 ∷ [])
    ∷ (48 ∷ 134 ∷ 220 ∷ 306 ∷ 392 ∷ 478 ∷ 564 ∷ 650 ∷ 736 ∷ 822 ∷ 908 ∷ 994 ∷ 1080 ∷ 1166 ∷ 1252
        ∷ 1338 ∷ 1424 ∷ 1510 ∷ 1596 ∷ 1682 ∷ 1768 ∷ 1854 ∷ 1940 ∷ 2026 ∷ [])
    ∷ (49 ∷ 135 ∷ 221 ∷ 307 ∷ 393 ∷ 479 ∷ 565 ∷ 651 ∷ 737 ∷ 823 ∷ 909 ∷ 995 ∷ 1081 ∷ 1167 ∷ 1253
        ∷ 1339 ∷ 1425 ∷ 1511 ∷ 1597 ∷ 1683 ∷ 1769 ∷ 1855 ∷ 1941 ∷ 2027 ∷ [])
    ∷ (50 ∷ 136 ∷ 222 ∷ 308 ∷ 394 ∷ 480 ∷ 566 ∷ 652 ∷ 738 ∷ 824 ∷ 910 ∷ 996 ∷ 1082 ∷ 1168 ∷ 1254
        ∷ 1340 ∷ 1426 ∷ 1512 ∷ 1598 ∷ 1684 ∷ 1770 ∷ 1856 ∷ 1942 ∷ 2028 ∷ [])
    ∷ (51 ∷ 137 ∷ 223 ∷ 309 ∷ 395 ∷ 481 ∷ 567 ∷ 653 ∷ 739 ∷ 825 ∷ 911 ∷ 997 ∷ 1083 ∷ 1169 ∷ 1255
        ∷ 1341 ∷ 1427 ∷ 1513 ∷ 1599 ∷ 1685 ∷ 1771 ∷ 1857 ∷ 1943 ∷ 2029 ∷ [])
    ∷ (52 ∷ 138 ∷ 224 ∷ 310 ∷ 396 ∷ 482 ∷ 568 ∷ 654 ∷ 740 ∷ 826 ∷ 912 ∷ 998 ∷ 1084 ∷ 1170 ∷ 1256
        ∷ 1342 ∷ 1428 ∷ 1514 ∷ 1600 ∷ 1686 ∷ 1772 ∷ 1858 ∷ 1944 ∷ 2030 ∷ [])
    ∷ (53 ∷ 139 ∷ 225 ∷ 311 ∷ 397 ∷ 483 ∷ 569 ∷ 655 ∷ 741 ∷ 827 ∷ 913 ∷ 999 ∷ 1085 ∷ 1171 ∷ 1257
        ∷ 1343 ∷ 1429 ∷ 1515 ∷ 1601 ∷ 1687 ∷ 1773 ∷ 1859 ∷ 1945 ∷ 2031 ∷ [])
    ∷ (54 ∷ 140 ∷ 226 ∷ 312 ∷ 398 ∷ 484 ∷ 570 ∷ 656 ∷ 742 ∷ 828 ∷ 914 ∷ 1000 ∷ 1086 ∷ 1172 ∷ 1258
        ∷ 1344 ∷ 1430 ∷ 1516 ∷ 1602 ∷ 1688 ∷ 1774 ∷ 1860 ∷ 1946 ∷ 2032 ∷ [])
    ∷ (55 ∷ 141 ∷ 227 ∷ 313 ∷ 399 ∷ 485 ∷ 571 ∷ 657 ∷ 743 ∷ 829 ∷ 915 ∷ 1001 ∷ 1087 ∷ 1173 ∷ 1259
        ∷ 1345 ∷ 1431 ∷ 1517 ∷ 1603 ∷ 1689 ∷ 1775 ∷ 1861 ∷ 1947 ∷ 2033 ∷ [])
    ∷ (56 ∷ 142 ∷ 228 ∷ 314 ∷ 400 ∷ 486 ∷ 572 ∷ 658 ∷ 744 ∷ 830 ∷ 916 ∷ 1002 ∷ 1088 ∷ 1174 ∷ 1260
        ∷ 1346 ∷ 1432 ∷ 1518 ∷ 1604 ∷ 1690 ∷ 1776 ∷ 1862 ∷ 1948 ∷ 2034 ∷ [])
    ∷ (57 ∷ 143 ∷ 229 ∷ 315 ∷ 401 ∷ 487 ∷ 573 ∷ 659 ∷ 745 ∷ 831 ∷ 917 ∷ 1003 ∷ 1089 ∷ 1175 ∷ 1261
        ∷ 1347 ∷ 1433 ∷ 1519 ∷ 1605 ∷ 1691 ∷ 1777 ∷ 1863 ∷ 1949 ∷ 2035 ∷ [])
    ∷ (58 ∷ 144 ∷ 230 ∷ 316 ∷ 402 ∷ 488 ∷ 574 ∷ 660 ∷ 746 ∷ 832 ∷ 918 ∷ 1004 ∷ 1090 ∷ 1176 ∷ 1262
        ∷ 1348 ∷ 1434 ∷ 1520 ∷ 1606 ∷ 1692 ∷ 1778 ∷ 1864 ∷ 1950 ∷ 2036 ∷ [])
    ∷ (59 ∷ 145 ∷ 231 ∷ 317 ∷ 403 ∷ 489 ∷ 575 ∷ 661 ∷ 747 ∷ 833 ∷ 919 ∷ 1005 ∷ 1091 ∷ 1177 ∷ 1263
        ∷ 1349 ∷ 1435 ∷ 1521 ∷ 1607 ∷ 1693 ∷ 1779 ∷ 1865 ∷ 1951 ∷ 2037 ∷ [])
    ∷ (60 ∷ 146 ∷ 232 ∷ 318 ∷ 404 ∷ 490 ∷ 576 ∷ 662 ∷ 748 ∷ 834 ∷ 920 ∷ 1006 ∷ 1092 ∷ 1178 ∷ 1264
        ∷ 1350 ∷ 1436 ∷ 1522 ∷ 1608 ∷ 1694 ∷ 1780 ∷ 1866 ∷ 1952 ∷ 2038 ∷ [])
    ∷ (61 ∷ 147 ∷ 233 ∷ 319 ∷ 405 ∷ 491 ∷ 577 ∷ 663 ∷ 749 ∷ 835 ∷ 921 ∷ 1007 ∷ 1093 ∷ 1179 ∷ 1265
        ∷ 1351 ∷ 1437 ∷ 1523 ∷ 1609 ∷ 1695 ∷ 1781 ∷ 1867 ∷ 1953 ∷ 2039 ∷ [])
    ∷ (62 ∷ 148 ∷ 234 ∷ 320 ∷ 406 ∷ 492 ∷ 578 ∷ 664 ∷ 750 ∷ 836 ∷ 922 ∷ 1008 ∷ 1094 ∷ 1180 ∷ 1266
        ∷ 1352 ∷ 1438 ∷ 1524 ∷ 1610 ∷ 1696 ∷ 1782 ∷ 1868 ∷ 1954 ∷ 2040 ∷ [])
    ∷ (63 ∷ 149 ∷ 235 ∷ 321 ∷ 407 ∷ 493 ∷ 579 ∷ 665 ∷ 751 ∷ 837 ∷ 923 ∷ 1009 ∷ 1095 ∷ 1181 ∷ 1267
        ∷ 1353 ∷ 1439 ∷ 1525 ∷ 1611 ∷ 1697 ∷ 1783 ∷ 1869 ∷ 1955 ∷ 2041 ∷ [])
    ∷ (64 ∷ 150 ∷ 236 ∷ 322 ∷ 408 ∷ 494 ∷ 580 ∷ 666 ∷ 752 ∷ 838 ∷ 924 ∷ 1010 ∷ 1096 ∷ 1182 ∷ 1268
        ∷ 1354 ∷ 1440 ∷ 1526 ∷ 1612 ∷ 1698 ∷ 1784 ∷ 1870 ∷ 1956 ∷ 2042 ∷ [])
    ∷ (65 ∷ 151 ∷ 237 ∷ 323 ∷ 409 ∷ 495 ∷ 581 ∷ 667 ∷ 753 ∷ 839 ∷ 925 ∷ 1011 ∷ 1097 ∷ 1183 ∷ 1269
        ∷ 1355 ∷ 1441 ∷ 1527 ∷ 1613 ∷ 1699 ∷ 1785 ∷ 1871 ∷ 1957 ∷ 2043 ∷ [])
    ∷ (66 ∷ 152 ∷ 238 ∷ 324 ∷ 410 ∷ 496 ∷ 582 ∷ 668 ∷ 754 ∷ 840 ∷ 926 ∷ 1012 ∷ 1098 ∷ 1184 ∷ 1270
        ∷ 1356 ∷ 1442 ∷ 1528 ∷ 1614 ∷ 1700 ∷ 1786 ∷ 1872 ∷ 1958 ∷ 2044 ∷ [])
    ∷ (67 ∷ 153 ∷ 239 ∷ 325 ∷ 411 ∷ 497 ∷ 583 ∷ 669 ∷ 755 ∷ 841 ∷ 927 ∷ 1013 ∷ 1099 ∷ 1185 ∷ 1271
        ∷ 1357 ∷ 1443 ∷ 1529 ∷ 1615 ∷ 1701 ∷ 1787 ∷ 1873 ∷ 1959 ∷ 2045 ∷ [])
    ∷ (68 ∷ 154 ∷ 240 ∷ 326 ∷ 412 ∷ 498 ∷ 584 ∷ 670 ∷ 756 ∷ 842 ∷ 928 ∷ 1014 ∷ 1100 ∷ 1186 ∷ 1272
        ∷ 1358 ∷ 1444 ∷ 1530 ∷ 1616 ∷ 1702 ∷ 1788 ∷ 1874 ∷ 1960 ∷ 2046 ∷ [])
    ∷ (69 ∷ 155 ∷ 241 ∷ 327 ∷ 413 ∷ 499 ∷ 585 ∷ 671 ∷ 757 ∷ 843 ∷ 929 ∷ 1015 ∷ 1101 ∷ 1187 ∷ 1273
        ∷ 1359 ∷ 1445 ∷ 1531 ∷ 1617 ∷ 1703 ∷ 1789 ∷ 1875 ∷ 1961 ∷ 2047 ∷ [])
    ∷ (70 ∷ 156 ∷ 242 ∷ 328 ∷ 414 ∷ 500 ∷ 586 ∷ 672 ∷ 758 ∷ 844 ∷ 930 ∷ 1016 ∷ 1102 ∷ 1188 ∷ 1274
        ∷ 1360 ∷ 1446 ∷ 1532 ∷ 1618 ∷ 1704 ∷ 1790 ∷ 1876 ∷ 1962 ∷ 2048 ∷ [])
    ∷ (71 ∷ 157 ∷ 243 ∷ 329 ∷ 415 ∷ 501 ∷ 587 ∷ 673 ∷ 759 ∷ 845 ∷ 931 ∷ 1017 ∷ 1103 ∷ 1189 ∷ 1275
        ∷ 1361 ∷ 1447 ∷ 1533 ∷ 1619 ∷ 1705 ∷ 1791 ∷ 1877 ∷ 1963 ∷ 2049 ∷ [])
    ∷ (72 ∷ 158 ∷ 244 ∷ 330 ∷ 416 ∷ 502 ∷ 588 ∷ 674 ∷ 760 ∷ 846 ∷ 932 ∷ 1018 ∷ 1104 ∷ 1190 ∷ 1276
        ∷ 1362 ∷ 1448 ∷ 1534 ∷ 1620 ∷ 1706 ∷ 1792 ∷ 1878 ∷ 1964 ∷ 2050 ∷ [])
    ∷ (73 ∷ 159 ∷ 245 ∷ 331 ∷ 417 ∷ 503 ∷ 589 ∷ 675 ∷ 761 ∷ 847 ∷ 933 ∷ 1019 ∷ 1105 ∷ 1191 ∷ 1277
        ∷ 1363 ∷ 1449 ∷ 1535 ∷ 1621 ∷ 1707 ∷ 1793 ∷ 1879 ∷ 1965 ∷ 2051 ∷ [])
    ∷ (74 ∷ 160 ∷ 246 ∷ 332 ∷ 418 ∷ 504 ∷ 590 ∷ 676 ∷ 762 ∷ 848 ∷ 934 ∷ 1020 ∷ 1106 ∷ 1192 ∷ 1278
        ∷ 1364 ∷ 1450 ∷ 1536 ∷ 1622 ∷ 1708 ∷ 1794 ∷ 1880 ∷ 1966 ∷ 2052 ∷ [])
    ∷ (75 ∷ 161 ∷ 247 ∷ 333 ∷ 419 ∷ 505 ∷ 591 ∷ 677 ∷ 763 ∷ 849 ∷ 935 ∷ 1021 ∷ 1107 ∷ 1193 ∷ 1279
        ∷ 1365 ∷ 1451 ∷ 1537 ∷ 1623 ∷ 1709 ∷ 1795 ∷ 1881 ∷ 1967 ∷ 2053 ∷ [])
    ∷ (76 ∷ 162 ∷ 248 ∷ 334 ∷ 420 ∷ 506 ∷ 592 ∷ 678 ∷ 764 ∷ 850 ∷ 936 ∷ 1022 ∷ 1108 ∷ 1194 ∷ 1280
        ∷ 1366 ∷ 1452 ∷ 1538 ∷ 1624 ∷ 1710 ∷ 1796 ∷ 1882 ∷ 1968 ∷ 2054 ∷ [])
    ∷ (77 ∷ 163 ∷ 249 ∷ 335 ∷ 421 ∷ 507 ∷ 593 ∷ 679 ∷ 765 ∷ 851 ∷ 937 ∷ 1023 ∷ 1109 ∷ 1195 ∷ 1281
        ∷ 1367 ∷ 1453 ∷ 1539 ∷ 1625 ∷ 1711 ∷ 1797 ∷ 1883 ∷ 1969 ∷ 2055 ∷ [])
    ∷ (78 ∷ 164 ∷ 250 ∷ 336 ∷ 422 ∷ 508 ∷ 594 ∷ 680 ∷ 766 ∷ 852 ∷ 938 ∷ 1024 ∷ 1110 ∷ 1196 ∷ 1282
        ∷ 1368 ∷ 1454 ∷ 1540 ∷ 1626 ∷ 1712 ∷ 1798 ∷ 1884 ∷ 1970 ∷ 2056 ∷ [])
    ∷ (79 ∷ 165 ∷ 251 ∷ 337 ∷ 423 ∷ 509 ∷ 595 ∷ 681 ∷ 767 ∷ 853 ∷ 939 ∷ 1025 ∷ 1111 ∷ 1197 ∷ 1283
        ∷ 1369 ∷ 1455 ∷ 1541 ∷ 1627 ∷ 1713 ∷ 1799 ∷ 1885 ∷ 1971 ∷ 2057 ∷ [])
    ∷ (80 ∷ 166 ∷ 252 ∷ 338 ∷ 424 ∷ 510 ∷ 596 ∷ 682 ∷ 768 ∷ 854 ∷ 940 ∷ 1026 ∷ 1112 ∷ 1198 ∷ 1284
        ∷ 1370 ∷ 1456 ∷ 1542 ∷ 1628 ∷ 1714 ∷ 1800 ∷ 1886 ∷ 1972 ∷ 2058 ∷ [])
    ∷ (81 ∷ 167 ∷ 253 ∷ 339 ∷ 425 ∷ 511 ∷ 597 ∷ 683 ∷ 769 ∷ 855 ∷ 941 ∷ 1027 ∷ 1113 ∷ 1199 ∷ 1285
        ∷ 1371 ∷ 1457 ∷ 1543 ∷ 1629 ∷ 1715 ∷ 1801 ∷ 1887 ∷ 1973 ∷ 2059 ∷ [])
    ∷ (82 ∷ 168 ∷ 254 ∷ 340 ∷ 426 ∷ 512 ∷ 598 ∷ 684 ∷ 770 ∷ 856 ∷ 942 ∷ 1028 ∷ 1114 ∷ 1200 ∷ 1286
        ∷ 1372 ∷ 1458 ∷ 1544 ∷ 1630 ∷ 1716 ∷ 1802 ∷ 1888 ∷ 1974 ∷ 2060 ∷ [])
    ∷ (83 ∷ 169 ∷ 255 ∷ 341 ∷ 427 ∷ 513 ∷ 599 ∷ 685 ∷ 771 ∷ 857 ∷ 943 ∷ 1029 ∷ 1115 ∷ 1201 ∷ 1287
        ∷ 1373 ∷ 1459 ∷ 1545 ∷ 1631 ∷ 1717 ∷ 1803 ∷ 1889 ∷ 1975 ∷ 2061 ∷ [])
    ∷ (84 ∷ 170 ∷ 256 ∷ 342 ∷ 428 ∷ 514 ∷ 600 ∷ 686 ∷ 772 ∷ 858 ∷ 944 ∷ 1030 ∷ 1116 ∷ 1202 ∷ 1288
        ∷ 1374 ∷ 1460 ∷ 1546 ∷ 1632 ∷ 1718 ∷ 1804 ∷ 1890 ∷ 1976 ∷ 2062 ∷ [])
    ∷ (85 ∷ 171 ∷ 257 ∷ 343 ∷ 429 ∷ 515 ∷ 601 ∷ 687 ∷ 773 ∷ 859 ∷ 945 ∷ 1031 ∷ 1117 ∷ 1203 ∷ 1289
        ∷ 1375 ∷ 1461 ∷ 1547 ∷ 1633 ∷ 1719 ∷ 1805 ∷ 1891 ∷ 1977 ∷ 2063 ∷ [])
    ∷ []
