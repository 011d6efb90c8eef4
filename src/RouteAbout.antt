-- ===== src/RouteAbout.antt =====
-- http_route_about.c: the device's answer about itself, on every method.
use atx_sys.Common.{◌++◌, Bytes, codes}
use atx_sys.Http.{Response}

-- ABOUT_FMT
unfoldable pub about_fmt : Bytes → Bytes → Bytes → Bytes → Bytes → Bytes → Bytes
about_fmt sid product prj_version atx_version web_version mac =
    codes "{\"sid\":\""
    ++ (sid
        ++ (codes "\",\"product\":\""
            ++ (product
                ++ (codes "\",\"prjVersion\":\""
                    ++ (prj_version
                        ++ (codes "\",\"atxVersion\":\""
                            ++ (atx_version
                                ++ (codes "\",\"webVersion\":\""
                                    ++ (web_version
                                        ++ (codes "\",\"mac\":\"" ++ (mac ++ codes "\",}")))))))))))

unfoldable pub route_about : Response
unfolding about_fmt
route_about = record {
  code = 200;
  body =
      about_fmt (codes "linqm5serialnumberhere") (codes "linqm5") (codes "0.0.1") (codes "0.0.1")
        (codes "0.0.1") (codes "00:00:00:00:00:00");
}
